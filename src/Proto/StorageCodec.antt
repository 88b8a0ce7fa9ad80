-- ===== src/Proto/StorageCodec.antt =====
-- What prost's generated code does with the messages of rust/protocol/src/proto/storage.proto.
use libsignal_client.Common.{◌≡◌, Option, some}
use libsignal_client.Common.Bytes.{Bytes}
use libsignal_client.Proto.Storage.{
  SessionStructure, RecordStructure, PreKeyRecordStructure, SignedPreKeyRecordStructure,
  IdentityKeyPairStructure, SenderKeyStateStructure, SenderKeyRecordStructure,
}

-- `encode` into a `Vec`, which grows, does not fail; `decode` may.
pub record Message (M : Type 0) : Type 0 where
  pub encode : M → Bytes
  pub decode : Bytes → Option M

pub record StorageCodec : Type 0 where
  pub session : Message SessionStructure
  pub record_structure : Message RecordStructure
  pub pre_key : Message PreKeyRecordStructure
  pub signed_pre_key : Message SignedPreKeyRecordStructure
  pub identity_key_pair : Message IdentityKeyPairStructure
  pub sender_key_state : Message SenderKeyStateStructure
  pub sender_key_record : Message SenderKeyRecordStructure

-- The documented contract of a protobuf library: what is encoded is decoded.
pub record Decodes {M : Type 0} (m : Message M) : Type 0 where
  pub decode_encode : (v : M) → m.decode (m.encode v) ≡ some v

pub record StorageRoundTrips (c : StorageCodec) : Type 0 where
  pub session : Decodes c.session
  pub record_structure : Decodes c.record_structure
  pub pre_key : Decodes c.pre_key
  pub signed_pre_key : Decodes c.signed_pre_key
  pub identity_key_pair : Decodes c.identity_key_pair
  pub sender_key_state : Decodes c.sender_key_state
  pub sender_key_record : Decodes c.sender_key_record
