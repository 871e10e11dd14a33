-- ===== src/Domain.antt =====
-- app/domain: values, errors, entities and labels.
mod Values
mod Errors
mod Payload
mod Entities
pub mod Calendar
pub mod Labels
pub mod RoundTrip
unfoldable pub use Values.*
pub use Errors.*
unfoldable pub use Payload.*
pub use Entities.*
