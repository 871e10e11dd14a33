-- ===== src/Infra.antt =====
-- app/infra: the adapters that have logic of their own.
pub mod Masking
pub mod Llm
pub mod TextNormalizer
pub mod Schema
pub mod Emf
