-- ===== src/Session.antt =====
-- rust/protocol/src/session.rs, over the stores in memory.
pub mod Parts
pub mod Process
pub mod Safe
