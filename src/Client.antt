-- ===== src/Client.antt =====
-- The client: client/src.
pub mod Replies
