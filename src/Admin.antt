-- ===== src/Admin.antt =====
-- app/services/admin.py and the list responses of app/api/routers/reports.py.
pub mod Service
pub mod Out
pub mod Pages
pub mod Override
pub mod Limits
