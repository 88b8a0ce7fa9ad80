-- ===== src/Bridge.antt =====
-- The libraries for other languages: rust/bridge.
pub mod Ffi
