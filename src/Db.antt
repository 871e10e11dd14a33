-- ===== src/Db.antt =====
-- app/infra/db/models.py, app/infra/db/mappers.py and app/core/db.py: the tables, the conversion of
-- rows to entities, and transactions.
pub mod Table
pub mod Paging
pub mod Walk
mod Rows
mod Mappers
mod Effects
unfoldable pub use Rows.*
unfoldable pub use Mappers.{
  traverse, user_to_domain, property_to_domain, analysis_to_domain, monthly_to_domain,
  report_to_domain,
}
unfoldable pub use Effects.*
