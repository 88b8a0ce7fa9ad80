-- ===== src/Proto/Storage.antt =====
-- rust/protocol/src/proto/storage.proto.
use libsignal_client.Common.{ℕ, Bool, Option, List}
use libsignal_client.Common.Bytes.{Bytes}

pub record ChainKey : Type 0 where
  pub index : ℕ
  pub key : Bytes

pub record MessageKey : Type 0 where
  pub index : ℕ
  pub cipher_key : Bytes
  pub mac_key : Bytes
  pub iv : Bytes

pub record Chain : Type 0 where
  pub sender_ratchet_key : Bytes
  pub sender_ratchet_key_private : Bytes
  pub chain_key : Option ChainKey
  pub message_keys : List MessageKey

-- The `int32` is kept as its bit pattern, which is the `u32` that it is cast from and to.
pub record PendingPreKey : Type 0 where
  pub pre_key_id : ℕ
  pub signed_pre_key_id : ℕ
  pub base_key : Bytes

pub record SessionStructure : Type 0 where
  pub session_version : ℕ
  pub local_identity_public : Bytes
  pub remote_identity_public : Bytes
  pub root_key : Bytes
  pub previous_counter : ℕ
  pub sender_chain : Option Chain
  pub receiver_chains : List Chain
  pub pending_pre_key : Option PendingPreKey
  pub remote_registration_id : ℕ
  pub local_registration_id : ℕ
  pub needs_refresh : Bool
  pub alice_base_key : Bytes

pub record PreKeyRecordStructure : Type 0 where
  pub id : ℕ
  pub public_key : Bytes
  pub private_key : Bytes

pub record SignedPreKeyRecordStructure : Type 0 where
  pub id : ℕ
  pub public_key : Bytes
  pub private_key : Bytes
  pub signature : Bytes
  pub timestamp : ℕ

pub record SenderChainKey : Type 0 where
  pub iteration : ℕ
  pub seed : Bytes

pub record SenderMessageKey : Type 0 where
  pub iteration : ℕ
  pub seed : Bytes

pub record SenderSigningKey : Type 0 where
  pub public : Bytes
  pub private : Bytes

pub record SenderKeyStateStructure : Type 0 where
  pub sender_key_id : ℕ
  pub sender_chain_key : Option SenderChainKey
  pub sender_signing_key : Option SenderSigningKey
  pub sender_message_keys : List SenderMessageKey

pub record RecordStructure : Type 0 where
  pub current_session : Option SessionStructure
  pub previous_sessions : List SessionStructure

pub record IdentityKeyPairStructure : Type 0 where
  pub public_key : Bytes
  pub private_key : Bytes

pub record SenderKeyRecordStructure : Type 0 where
  pub sender_key_states : List SenderKeyStateStructure
