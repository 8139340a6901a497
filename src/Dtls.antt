-- ===== src/Dtls.antt =====
-- loft/src/dtls.rs: the OpenSSL listener. OpenSSL is a parameter: the keyed hash of its cookies, the codes of
-- its calls, and the identities that it asks the PSK callback for.
pub mod Cookie
pub mod Io
pub mod Shim
pub mod Listen
pub mod Connection
pub mod World
pub mod Tidy
pub mod Promotion
pub mod Datagram
pub mod Rounds
pub mod Reachable
pub mod Steady
mod Tests
