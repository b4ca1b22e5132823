-- ===== src/Process.antt =====
-- crates/owlsentry-daemon/src/monitors/process.rs
pub mod Reading
pub mod Monitor
pub mod Checks
pub mod Reports
pub mod Forgets
pub mod Tests
