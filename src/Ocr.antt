-- ===== src/Ocr.antt =====
-- The languages of text recognition: app/utils/ocr_language.py.
-- Tesseract, PyMuPDF, Pillow and the Unicode tables are parameters.
pub mod Words
pub mod Languages
pub mod Detect
pub mod Distinct
pub mod Packs
pub mod Gathered
pub mod Supported
pub mod Classified
mod Examples
