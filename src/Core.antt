-- ===== src/Core.antt =====
-- The domain layer (crates/anti-core/src): identities, state machines, contracts and ledgers.
pub mod Model
pub mod Agent
pub mod Routing
pub mod Arbiter
pub mod Capsule
pub mod InfoFilter
pub mod Governance
pub mod Config
pub mod Authority
pub mod Status
pub mod Work
pub mod Dispatch
pub mod Events
pub mod Stream
pub mod Tracker
pub mod LoopPrevention
pub mod Contract
pub mod Report
pub mod Verify
