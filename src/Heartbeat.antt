-- ===== src/Heartbeat.antt =====
-- engines/heartbeat and runtime/commands: the parts of a beat.
pub mod Fatigue
pub mod Commands
pub mod Decide
pub mod Idle
pub mod PushBack
pub mod RunSelf
pub mod Budget
pub mod Beat
