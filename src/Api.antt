-- ===== src/Api.antt =====
-- app/api: authentication, the status of an error, and the other schemas.
pub mod Deps
pub mod Problem
pub mod UiShared
pub mod MonthlyUi
pub mod MonthlyForms
pub mod MonthlyPages
pub mod AdminUi
pub mod AdminPages
pub mod AdminTable
pub mod AdminWalk
pub mod OverrideForm
pub mod Schemas
pub mod AuditUi
pub mod Reports
pub mod Views
