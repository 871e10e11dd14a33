-- ===== src/Search.antt =====
-- app/services/search.py, app/api/routers/search.py and the statements of `SqlSearchRepository`.
pub mod Repository
pub mod Citations
pub mod Service
pub mod Authorised
pub mod Sound
pub mod Cited
pub mod Linked
pub mod Protocol
