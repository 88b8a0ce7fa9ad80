-- ===== src/Storage.antt =====
-- rust/protocol/src/storage/inmem.rs: the stores that are kept in memory. Their methods return `Ok`
-- wherever a missing key is not an error, and those are modelled by their values. The `Context` is
-- not looked at by these stores, nor is the `Direction`.
pub mod Trust
pub mod Stores
pub mod ReadBack
pub mod Protocol
use libsignal_client.Common.{ℕ, Bool, true, false, Option, none, some, List, [], if◌then◌else◌}
use libsignal_client.Common.Assoc.{get, insert, remove, nat_eq}
use libsignal_client.Address.{ProtocolAddress, address_eq_instance}
use libsignal_client.Error.{Result, ok_or, invalid_pre_key_id, invalid_signed_pre_key_id}
use libsignal_client.Curve.PublicKey.{PublicKey, public_key_eq}
use libsignal_client.Primitives.{Primitives}
use libsignal_client.IdentityKey.{IdentityKeyPair}
use libsignal_client.State.PreKey.{PreKeyRecord}
use libsignal_client.State.SignedPreKey.{SignedPreKeyRecord}
use libsignal_client.State.Record.{SessionRecord}

pub data Direction : Type 0 where
  sending receiving : Direction

pub record InMemIdentityKeyStore : Type 0 where
  pub key_pair : IdentityKeyPair
  pub id : ℕ
  pub known_keys : List (ProtocolAddress × PublicKey)

unfoldable pub new_identity_store : IdentityKeyPair → ℕ → InMemIdentityKeyStore
new_identity_store key_pair id = record { key_pair = key_pair; id = id; known_keys = [] }

unfoldable pub get_identity : ProtocolAddress → InMemIdentityKeyStore → Option PublicKey
get_identity address s = get address s.known_keys

-- The flag says that a known key was replaced.
unfoldable pub save_identity :
    ⦃p : Primitives⦄
    → ProtocolAddress
    → PublicKey
    → InMemIdentityKeyStore
    → Bool × InMemIdentityKeyStore
save_identity address identity s =
    let written = record s { known_keys = insert address identity s.known_keys } in
    elim (get address s.known_keys) [
      | none ↦ (false, written)
      | some k ↦ if public_key_eq k identity then (false, s) else (true, written)
    ]

unfoldable pub is_trusted_identity :
    ⦃p : Primitives⦄ → ProtocolAddress → PublicKey → Direction → InMemIdentityKeyStore → Bool
is_trusted_identity address identity direction s = elim (get address s.known_keys) [
  | none ↦ true
  | some k ↦ public_key_eq k identity
]

abbrev pub InMemPreKeyStore : Type 0
InMemPreKeyStore = List (ℕ × PreKeyRecord)

unfoldable pub get_pre_key : ℕ → InMemPreKeyStore → Result PreKeyRecord
get_pre_key id s = ok_or (get id s) invalid_pre_key_id

unfoldable pub save_pre_key : ℕ → PreKeyRecord → InMemPreKeyStore → InMemPreKeyStore
save_pre_key id r s = insert id r s

unfoldable pub remove_pre_key : ℕ → InMemPreKeyStore → InMemPreKeyStore
remove_pre_key id s = remove id s

abbrev pub InMemSignedPreKeyStore : Type 0
InMemSignedPreKeyStore = List (ℕ × SignedPreKeyRecord)

unfoldable pub get_signed_pre_key : ℕ → InMemSignedPreKeyStore → Result SignedPreKeyRecord
get_signed_pre_key id s = ok_or (get id s) invalid_signed_pre_key_id

unfoldable pub save_signed_pre_key :
    ℕ → SignedPreKeyRecord → InMemSignedPreKeyStore → InMemSignedPreKeyStore
save_signed_pre_key id r s = insert id r s

abbrev pub InMemSessionStore : Type 0
InMemSessionStore = List (ProtocolAddress × SessionRecord)

unfoldable pub load_session : ProtocolAddress → InMemSessionStore → Option SessionRecord
load_session address s = get address s

unfoldable pub store_session :
    ProtocolAddress → SessionRecord → InMemSessionStore → InMemSessionStore
store_session address r s = insert address r s
