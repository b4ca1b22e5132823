-- ===== src/Messages.antt =====
-- crates/owlsentry-daemon/src/messages.rs, a message function for each detection.
pub mod Msg
pub mod Selinux
pub mod Files
pub mod Network
pub mod Processes
