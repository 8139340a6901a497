-- ===== src/Coap/Block.antt =====
-- loft/src/coap/block.rs: the Block1 and Block2 option value, block ranges, and Content-Range.
pub mod Defs
pub mod Laws
