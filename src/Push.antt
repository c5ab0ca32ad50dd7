-- ===== src/Push.antt =====
-- The registration of push tokens: src/services/push-token-registration.ts, and the part of
-- src/services/notification-service.ts that stores them.
pub mod Tokens
pub mod Normalizing
pub mod Registering
mod Examples
