-- ===== src/Listener.antt =====
-- loft/src/dtls_mbed.rs, from the stateless path on: how an unknown source earns a session, and the life of
-- that session. Demux models the routing before it. mbedTLS is a parameter: each of its calls is an
-- arbitrary sequence of callbacks with an arbitrary return code.
pub mod Transport
pub mod Cookie
pub mod Library
pub mod Calls
pub mod Pending
pub mod Outcomes
pub mod Thread
pub mod World
pub mod Routes
pub mod Promoted
pub mod Rounds
pub mod Serving
pub mod Shaking
pub mod Invariant
pub mod Beginnings
pub mod Upkeep
pub mod Cleanup
pub mod Reachable
pub mod Mint
pub mod Deadlines
mod Tests
