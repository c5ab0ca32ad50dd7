-- ===== src/Jobs/Claims.antt =====
-- What claiming does: one job first, then a whole batch.
pub mod Spent
pub mod Rows
pub mod Step
pub mod Success
pub mod Batch
pub mod Total
