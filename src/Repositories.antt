-- ===== src/Repositories.antt =====
-- app/infra/db/repositories.py: the statements of the repositories, on the tables.
pub mod User
pub mod Access
pub mod Report
pub mod Monthly
pub mod Stats
pub mod Totals
pub mod Audit
pub mod RoundTrip
