-- ===== src/Protocol.antt =====
-- protocol/: the messages and their binary form.
pub mod Messages
pub mod Read
pub mod Binary
