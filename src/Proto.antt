-- ===== src/Proto.antt =====
-- The messages of rust/protocol/src/proto, as prost's structs.
pub mod Storage
pub mod StorageCodec
