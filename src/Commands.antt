-- ===== src/Commands.antt =====
-- Command idempotency: src/services/command-idempotency-service.ts.
pub mod Json
pub mod Schema
pub mod Run
pub mod Settled
pub mod Replay
pub mod Once
mod Examples
pub mod Canonical
pub mod Cleanup
pub mod Retention
