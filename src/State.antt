-- ===== src/State.antt =====
-- rust/protocol/src/state.rs and its modules.
pub mod Session
pub mod Record
pub mod PreKey
pub mod SignedPreKey
pub mod Bundle
pub mod Encode
