-- ===== src/Ratchet.antt =====
-- rust/protocol/src/ratchet.rs and its modules: the keys of the double ratchet, and how a session
-- starts.
pub mod MessageKeys
pub mod ChainKey
pub mod RootKey
pub mod Setup
