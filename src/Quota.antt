-- ===== src/Quota.antt =====
-- loft/src/quota.rs: connection admission with a global ceiling and a fair share per source.
pub mod Defs
pub mod Books
pub mod Permits
mod Tests
