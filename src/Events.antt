-- ===== src/Events.antt =====
-- Durable events: src/services/durable-event-service.ts.
pub mod Schema
pub mod Append
pub mod Authorize
pub mod Prune
mod Pigeonhole
mod Scopes
pub mod Contiguous
pub mod Appending
pub mod Pruning
pub mod Lifecycle
mod Examples
