-- ===== src/Net.antt =====
-- crates/owlsentry-daemon/src/monitors/net.rs
pub mod Addr
pub mod Line
pub mod Tracker
pub mod Monitor
pub mod Reading
pub mod Owners
pub mod Ascii
pub mod Files
pub mod Hex
pub mod HexAddr
pub mod RoundTrip
pub mod Windows
pub mod Memory
pub mod Safety
mod Tests
