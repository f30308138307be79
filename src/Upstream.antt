-- ===== src/Upstream.antt =====
-- What client mode sends to its upstream pool and reads from it: sv2-core/src/modes/client.rs.
pub mod Url
pub mod Messages
pub mod Addresses
pub mod Decoded
