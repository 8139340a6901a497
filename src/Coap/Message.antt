-- ===== src/Coap/Message.antt =====
-- `Message` of loft/src/coap/message.rs and its methods. Options are (number, value) pairs.
mod Defs
mod Uint
pub mod Options
unfoldable pub use Defs.*
unfoldable pub use Uint.*
