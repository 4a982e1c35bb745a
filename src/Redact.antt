-- ===== src/Redact.antt =====
-- The redaction of a document (`redact_text` of app/utils/pdf_document.py). PyMuPDF and floating-point
-- numbers are parameters; every operation on a page gives the document behind it.
pub mod Areas
pub mod Steps
pub mod Laws
pub mod Pages
pub mod Clean
mod Examples
