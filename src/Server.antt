-- ===== src/Server.antt =====
-- The server side (server/): what a server thread keeps for each model.
pub mod Tracker
pub mod PendingBuffer
pub mod Storage
pub mod Reset
pub mod Model
pub mod Asp
pub mod Bsp
pub mod Ssp
pub mod Thread
pub mod Recorder
pub mod SparseSsp
