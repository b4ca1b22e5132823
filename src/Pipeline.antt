-- ===== src/Pipeline.antt =====
-- The parts of the program together: the daemon's session (crates/owlsentry-daemon/src/ipc_server.rs),
-- the client's thread and the window (crates/owlsentry-gui/src/client.rs and app.rs).
pub mod Window
pub mod Socket
pub mod Handshake
pub mod Arrival
pub mod FileChange
pub mod Race
pub mod Reconnect
mod Tests
