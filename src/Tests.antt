-- ===== src/Tests.antt =====
-- Runs of the model at concrete inputs: the theorems of the other modules applied to them.
pub mod Fixtures
pub mod Ssp
pub mod Bsp
pub mod Tracker
pub mod Storage
pub mod Thread
pub mod Recorder
pub mod Data
pub mod Worker
pub mod Tables
pub mod Driver
pub mod Comm
pub mod Nodes
pub mod Kept
pub mod Sparse
pub mod Serialization
pub mod Assigner
