-- ===== src/Curve.antt =====
-- rust/protocol/src/curve.rs: keys and their encodings.
pub mod PublicKey
pub mod PrivateKey
pub mod KeyPair
pub mod Curve25519
pub mod Order
pub mod Functions
