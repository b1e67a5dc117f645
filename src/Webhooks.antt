-- ===== src/Webhooks.antt =====
-- The deliveries of webhook events, of crates/tiletopia-server/src/webhooks.rs.
pub mod Queue
pub mod Rounds
mod Tests
