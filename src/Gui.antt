-- ===== src/Gui.antt =====
-- crates/owlsentry-gui: the client thread and the state of the window.
pub mod Client
pub mod Connect
pub mod App
pub mod Widgets
pub mod Bars
pub mod AlertsView
pub mod Dashboard
pub mod Counts
pub mod Frames
pub mod Clicks
pub mod Merge
pub mod Retained
pub mod Duplicates
mod Tests
