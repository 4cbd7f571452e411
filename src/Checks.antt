-- ===== src/Checks.antt =====
-- Concrete inputs to the theorems.
mod Data
mod Core
mod Store
mod Daemon
mod Ledgers
mod Lifecycle
mod Services
mod Manager
mod Decisions
mod Workspace
mod Buses
mod Settings
