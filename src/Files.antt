-- ===== src/Files.antt =====
-- Stored files: the storage tree, the checks of an upload, uploads, downloads and
-- the cleanup
-- (app/services/storage.py, file_validation.py, upload.py, download.py, app/tasks/cleanup.py).
pub mod Disk
pub mod Types
pub mod Upload
pub mod Download
pub mod Cleanup
mod Examples
