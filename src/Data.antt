-- ===== src/Data.antt =====
-- The helpers of the applications (lib/).
pub mod Sampler
