-- ===== src/Coap/Tcp.antt =====
-- loft/src/coap/tcp.rs: the length-prefixed frames of RFC 8323 and their incremental decoder.
pub mod Defs
pub mod RoundTrip
pub mod Stream
