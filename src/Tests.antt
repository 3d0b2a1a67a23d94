-- ===== src/Tests.antt =====
-- Runs of the programs: a machine to run them on, and the theorems at concrete inputs.
pub mod Machine
pub mod Reqrep
pub mod Pair
pub mod Pipeline
pub mod Pubsub
pub mod Survey
pub mod Timing
pub mod Programs
pub mod Measurements
pub mod Crew
pub mod Buses
pub mod Mesh
pub mod Limits
pub mod Network
pub mod Deliveries
