-- ===== src/Alert.antt =====
-- crates/owlsentry-common/src/alert.rs
pub mod Types
pub mod Order
