-- ===== src/Infra/Masking.antt =====
-- app/infra/masking/pii.py
pub mod Pattern
pub mod Masker
mod Stops
pub mod Sub
mod Addresses
mod Numbers
pub mod Clean
pub mod Restore
