-- ===== src/Daemon.antt =====
-- The daemon (crates/anti-daemon/src): what its requests do to the store.
pub mod Wire
pub mod Backing
pub mod Lifecycle
pub mod Review
pub mod Reports
pub mod Requests
pub mod Recovery
pub mod Restart
pub mod Stop
pub mod Waiting
pub mod Spawn
pub mod Dispositions
