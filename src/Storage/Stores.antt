-- ===== src/Storage/Stores.antt =====
-- The stores that the functions of rust/protocol/src/session.rs and session_cipher.rs are called
-- with, and the generator.
use libsignal_client.Common.{ℕ}
use libsignal_client.Storage.{
  InMemIdentityKeyStore, InMemPreKeyStore, InMemSignedPreKeyStore, InMemSessionStore,
}
use libsignal_client.State.Record.{SessionRecord}

pub record Stores : Type 0 where
  pub session_store : InMemSessionStore
  pub identity_store : InMemIdentityKeyStore
  pub pre_key_store : InMemPreKeyStore
  pub signed_pre_key_store : InMemSignedPreKeyStore
  pub csprng : ℕ

-- The stores, and a record that was loaded and is not yet stored.
pub record Loaded : Type 0 where
  pub stores : Stores
  pub session_record : SessionRecord
