-- ===== src/Protocol.antt =====
-- internal/network: what the server and the client have in common.
pub mod Reply
pub mod Request
pub mod Delivery
mod Tests
