-- ===== src/Coap/Udp.antt =====
-- loft/src/coap/udp.rs: the 4-byte header around the shared region.
pub mod Defs
pub mod RoundTrip
