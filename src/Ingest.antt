-- ===== src/Ingest.antt =====
-- app/services/ingest.py.
pub mod Chunks
pub mod S3Event
pub mod Service
pub mod Privacy
pub mod Contacts
pub mod Idempotence
pub mod Prepared
pub mod Stored
