-- ===== src/Shim.antt =====
-- mbedtls-ffi-shim: the safe wrapper of mbedTLS. The library itself is not in the repository: what one of
-- its calls does is a sequence of callbacks into this code and a return code, both arbitrary.
pub mod Codes
pub mod Timer
pub mod Session
pub mod Config
mod Tests
