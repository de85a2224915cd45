-- ===== src/Io.antt =====
-- The input of data (io/): how the blocks of files are handed out to the workers.
pub mod Assigner
