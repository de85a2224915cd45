-- ===== src/Worker.antt =====
-- The worker side (worker/): how a worker thread's requests are cut up, sent and awaited.
pub mod RangeManager
pub mod Blocker
pub mod TableBox
pub mod SimpleTable
pub mod ClientTable
pub mod SparseTable
