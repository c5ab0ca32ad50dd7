-- ===== src/Cursor.antt =====
-- Signed cursors of the paged lists: src/lib/cursor.ts.
pub mod Base64
pub mod Payload
pub mod Codec
pub mod Reading
pub mod RoundTrip
pub mod Refusals
pub mod Parse
pub mod Printed
pub mod Complete
mod Examples
