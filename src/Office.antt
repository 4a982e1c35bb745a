-- ===== src/Office.antt =====
-- The conversion of Office documents (app/utils/command.py, app/utils/office_pool.py,
-- app/utils/office.py).
pub mod Command
pub mod Launchers
pub mod Pool
pub mod Convert
mod Examples
