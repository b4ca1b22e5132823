-- ===== src/Audit.antt =====
-- crates/owlsentry-daemon/src/monitors/audit.rs
pub mod KeyValues
pub mod RoundTrip
pub mod Events
pub mod Monitor
pub mod Alerts
pub mod Lines
pub mod Split
pub mod Tail
pub mod Exact
pub mod Writes
pub mod Account
pub mod Follows
pub mod Progress
pub mod Rotation
mod Tests
