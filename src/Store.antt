-- ===== src/Store.antt =====
-- The SQLite store of the daemon (crates/anti-daemon/src/store.rs).
pub mod Codec
pub mod Db
pub mod Events
pub mod Works
pub mod Deliveries
pub mod Agents
