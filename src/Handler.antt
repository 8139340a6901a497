-- ===== src/Handler.antt =====
-- loft/src/handler.rs: CoAP requests mapped onto the backend's device routes.
pub mod Types
pub mod Block1
pub mod Response
pub mod Firmware
pub mod Route
pub mod Upstream
mod Tests
