-- ===== src/Coap/Wire.antt =====
-- The options and payload region of loft/src/coap/message.rs that both framings share:
-- `encode_options_and_payload`, `decode_options_and_payload` and their nibble forms.
pub mod Defs
pub mod Sort
pub mod RoundTrip
pub mod Decode
