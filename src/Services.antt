-- ===== src/Services.antt =====
-- The services beside the requests: the scheduler, the waiting for a status and the files of the agent
-- manager (crates/anti-daemon/src), and the guarded writes of a workspace (crates/anti-workspace/src).
pub mod Scheduler
pub mod Cycles
pub mod Wait
pub mod Manager
pub mod Cas
pub mod Bus
pub mod Loops
