-- ===== src/Driver.antt =====
-- The driver (driver/): thread ids, and the workers of a task.
pub mod IdMapper
pub mod WorkerSpec
pub mod Engine
