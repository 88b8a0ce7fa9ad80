-- ===== src/Group.antt =====
-- Group messages: rust/protocol/src/sender_keys.rs and rust/protocol/src/group_cipher.rs.
pub mod SenderKeys
pub mod Record
pub mod Cipher
pub mod Store
pub mod Skip
pub mod Deliver
pub mod Join
pub mod Encode
pub mod Window
