-- ===== src/Sockets.antt =====
-- The hubs of the sockets: src/services/notification-sockets.ts and src/services/chat-sockets.ts.
pub mod Notification
pub mod Delivery
pub mod Lifecycle
pub mod Chat
pub mod ChatState
mod ChatExamples
mod Examples
