-- ===== src/Daemon.antt =====
-- The daemon's registries and handlers: crates/bsk-cli/src/daemon.
pub mod Process
pub mod Inflight
pub mod Abort
pub mod Interrupts
pub mod Browsers
pub mod Sessions
pub mod Queues
pub mod State
pub mod Forward
pub mod Start
pub mod Stop
pub mod Times
pub mod Cancel
pub mod Ipc
pub mod Ws
pub mod System
pub mod Status
pub mod Reaper
