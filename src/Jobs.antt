-- ===== src/Jobs.antt =====
-- Delivery jobs (src/services/delivery-job-service.ts over the tables of src/db/durable-schema.ts):
-- the rows, the operations on them, and below those the theorems about them.
pub mod Schema
pub mod Enqueue
pub mod Claim
pub mod Finish
pub mod Maintenance
pub mod Checks
pub mod Sound
pub mod Leases
pub mod Transitions
pub mod Claims
pub mod Upkeep
pub mod Lifecycle
mod Examples
