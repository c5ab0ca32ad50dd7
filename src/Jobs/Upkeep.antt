-- ===== src/Jobs/Upkeep.antt =====
-- The operations beside the workers' own: enqueueing, requeueing by hand, and cleaning up.
pub mod Enqueue
pub mod Requeue
pub mod Cleanup
