-- ===== src/Config.antt =====
-- crates/owlsentry-common/src/config.rs
pub mod Types
pub mod Validate
pub mod Rules
mod Tests
