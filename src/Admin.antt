-- ===== src/Admin.antt =====
-- The admin panel (app/services/admin.py, app/api/v1/endpoints/admin).
pub mod Rows
pub mod Tables
pub mod Settings
pub mod Audit
pub mod Users
pub mod Subscriptions
pub mod Jobs
pub mod Files
pub mod Content
pub mod Support
pub mod Listing
pub mod Lists
mod Examples
