-- ===== src/Monthly.antt =====
-- app/services/monthly.py and the handlers of app/api/routers/monthly.py.
pub mod Render
pub mod Service
pub mod Jobs
pub mod Frame
pub mod Approval
pub mod Versions
pub mod Lifecycle
pub mod Race
pub mod Generation
