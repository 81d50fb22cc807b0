-- ===== src/Network.antt =====
-- The sender and the receiver with a network between them that loses, repeats, reorders and delays
-- datagrams at will, and may damage a byte of one.
pub mod Channel
pub mod Delivery
pub mod Emit
