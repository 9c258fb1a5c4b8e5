-- ===== src/CoreSim.antt =====
-- src/claim_triage/core_sim: the simulated surrounding systems, their store and its surface.
pub mod Tables
pub mod Store
pub mod App
mod Tests
