-- ===== src/Coap.antt =====
-- The CoAP wire layer, loft/src/coap: message core, UDP datagrams, TCP frames and block options.
pub mod Code
pub mod Utf8
pub mod Message
pub mod Wire
pub mod Udp
pub mod Tcp
pub mod Block
mod Tests
