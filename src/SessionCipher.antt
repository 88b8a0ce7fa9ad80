-- ===== src/SessionCipher.antt =====
-- rust/protocol/src/session_cipher.rs.
pub mod Keys
pub mod Decrypt
pub mod Encrypt
pub mod Messages
pub mod Window
pub mod Network
