-- ===== src/Watermark.antt =====
-- The removal of watermarks (app/utils/pdf_security.py): the objects of a document as pypdf hands them
-- out, and the helpers of both passes. Floating-point numbers are a parameter.
pub mod Objects
pub mod Matrices
pub mod Sink
pub mod Filter
pub mod Scan
pub mod Layers
pub mod Kept
pub mod Walked
pub mod Decided
pub mod Analysed
pub mod Saved
mod Examples
