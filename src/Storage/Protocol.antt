-- ===== src/Storage/Protocol.antt =====
-- `InMemSignalProtocolStore` of rust/protocol/src/storage/inmem.rs: the five stores as one, each
-- method of which is that of the store it belongs to.
use libsignal_client.Common.{ℕ, Bool, Option, []}
use libsignal_client.Address.{ProtocolAddress}
use libsignal_client.Curve.PublicKey.{PublicKey}
use libsignal_client.Error.{Result}
use libsignal_client.Group.Record.{SenderKeyName, SenderKeyRecord}
use libsignal_client.Group.Store.{InMemSenderKeyStore}
use libsignal_client.Group.Store as SenderKeys
use libsignal_client.IdentityKey.{IdentityKeyPair}
use libsignal_client.Primitives.{Primitives}
use libsignal_client.State.PreKey.{PreKeyRecord}
use libsignal_client.State.Record.{SessionRecord}
use libsignal_client.State.SignedPreKey.{SignedPreKeyRecord}
use libsignal_client.Storage as InMem
use libsignal_client.Storage.{
  Direction, InMemIdentityKeyStore, InMemPreKeyStore, InMemSignedPreKeyStore, InMemSessionStore,
}

unfoldable pub new_pre_key_store : InMemPreKeyStore
new_pre_key_store = []

unfoldable pub new_signed_pre_key_store : InMemSignedPreKeyStore
new_signed_pre_key_store = []

unfoldable pub new_session_store : InMemSessionStore
new_session_store = []

unfoldable pub new_sender_key_store : InMemSenderKeyStore
new_sender_key_store = []

pub record InMemSignalProtocolStore : Type 0 where
  pub session_store : InMemSessionStore
  pub pre_key_store : InMemPreKeyStore
  pub signed_pre_key_store : InMemSignedPreKeyStore
  pub identity_store : InMemIdentityKeyStore
  pub sender_key_store : InMemSenderKeyStore

unfoldable pub new : IdentityKeyPair → ℕ → InMemSignalProtocolStore
new key_pair registration_id = record {
  session_store = new_session_store;
  pre_key_store = new_pre_key_store;
  signed_pre_key_store = new_signed_pre_key_store;
  identity_store = InMem.new_identity_store key_pair registration_id;
  sender_key_store = new_sender_key_store;
}

unfoldable pub get_identity_key_pair : InMemSignalProtocolStore → IdentityKeyPair
get_identity_key_pair s = s.identity_store.key_pair

unfoldable pub get_local_registration_id : InMemSignalProtocolStore → ℕ
get_local_registration_id s = s.identity_store.id

module _ ⦃p : Primitives⦄ where
  unfoldable pub save_identity :
      ProtocolAddress → PublicKey → InMemSignalProtocolStore → Bool × InMemSignalProtocolStore
  save_identity address identity s =
      let (replaced, store) = InMem.save_identity address identity s.identity_store in
      (replaced, record s { identity_store = store })

  unfoldable pub is_trusted_identity :
      ProtocolAddress → PublicKey → Direction → InMemSignalProtocolStore → Bool
  is_trusted_identity address identity direction s =
      InMem.is_trusted_identity address identity direction s.identity_store

unfoldable pub get_identity : ProtocolAddress → InMemSignalProtocolStore → Option PublicKey
get_identity address s = InMem.get_identity address s.identity_store

unfoldable pub get_pre_key : ℕ → InMemSignalProtocolStore → Result PreKeyRecord
get_pre_key id s = InMem.get_pre_key id s.pre_key_store

unfoldable pub save_pre_key : ℕ → PreKeyRecord → InMemSignalProtocolStore → InMemSignalProtocolStore
save_pre_key id r s = record s { pre_key_store = InMem.save_pre_key id r s.pre_key_store }

unfoldable pub remove_pre_key : ℕ → InMemSignalProtocolStore → InMemSignalProtocolStore
remove_pre_key id s = record s { pre_key_store = InMem.remove_pre_key id s.pre_key_store }

unfoldable pub get_signed_pre_key : ℕ → InMemSignalProtocolStore → Result SignedPreKeyRecord
get_signed_pre_key id s = InMem.get_signed_pre_key id s.signed_pre_key_store

unfoldable pub save_signed_pre_key :
    ℕ → SignedPreKeyRecord → InMemSignalProtocolStore → InMemSignalProtocolStore
save_signed_pre_key id r s = record s {
  signed_pre_key_store = InMem.save_signed_pre_key id r s.signed_pre_key_store;
}

unfoldable pub load_session : ProtocolAddress → InMemSignalProtocolStore → Option SessionRecord
load_session address s = InMem.load_session address s.session_store

unfoldable pub store_session :
    ProtocolAddress → SessionRecord → InMemSignalProtocolStore → InMemSignalProtocolStore
store_session address r s = record s {
  session_store = InMem.store_session address r s.session_store;
}

unfoldable pub store_sender_key :
    SenderKeyName → SenderKeyRecord → InMemSignalProtocolStore → InMemSignalProtocolStore
store_sender_key name r s = record s {
  sender_key_store = SenderKeys.store_sender_key name r s.sender_key_store;
}

unfoldable pub load_sender_key : SenderKeyName → InMemSignalProtocolStore → Option SenderKeyRecord
load_sender_key name s = SenderKeys.load_sender_key name s.sender_key_store
