-- ===== src/Pages.antt =====
-- Page-level PDF operations (app/utils/pdf_pages.py).
pub mod Selection
pub mod Pypdf
pub mod Operations
