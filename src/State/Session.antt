-- ===== src/State/Session.antt =====
-- `SessionState` of rust/protocol/src/state/session.rs, a wrapper of the stored structure. A method
-- that returns `Ok` on every path is modelled by its value; one by `&mut self` that can fail writes
-- nothing where it fails, and returns the new state.
pub mod Chains
pub mod Stored
pub mod WellFormed
use libsignal_client.Common.{
  ℕ, zero, suc, ◌+◌, ◌<◌, Bool, true, false, Option, none, some, List, [], ◌∷◌, ◌++◌, length, set,
  remove_at, drop, drop_last, ltb, ◌==◌, not, if◌then◌else◌,
}
use libsignal_client.Common.Bytes.{Bytes, bytes_eq}
use libsignal_client.Consts.{max_message_keys, max_receiver_chains}
use libsignal_client.Error.{
  Result, ok, err, ◌>>=◌, ◌>>◌, map_ok, ok_or, invalid_protobuf_encoding, invalid_state,
}
use libsignal_client.Curve.PublicKey
use libsignal_client.Curve.PublicKey.{PublicKey}
use libsignal_client.Curve.PrivateKey
use libsignal_client.Curve.PrivateKey.{PrivateKey}
use libsignal_client.Curve.KeyPair.{KeyPair}
use libsignal_client.Kdf
use libsignal_client.Ratchet.ChainKey
use libsignal_client.Ratchet.ChainKey.{ChainKey}
use libsignal_client.Ratchet.MessageKeys
use libsignal_client.Ratchet.MessageKeys.{MessageKeys}
use libsignal_client.Ratchet.RootKey
use libsignal_client.Ratchet.RootKey.{RootKey}
use libsignal_client.Proto.Storage
use libsignal_client.Proto.Storage.{Chain, MessageKey, SessionStructure}

abbrev pub SessionState : Type 0
SessionState = SessionStructure

pub record UnacknowledgedPreKeyMessageItems : Type 0 where
  pub pre_key_id : Option ℕ
  pub signed_pre_key_id : ℕ
  pub base_key : PublicKey

unfoldable pub session_version : SessionState → ℕ
session_version s = if s.session_version == 0 then 2 else s.session_version

-- `IdentityKey::decode` is `PublicKey::deserialize`.
unfoldable pub remote_identity_key : SessionState → Result (Option PublicKey)
remote_identity_key s =
    if length s.remote_identity_public == 0
    then ok none
    else map_ok some (PublicKey.deserialize s.remote_identity_public)

unfoldable pub local_identity_key : SessionState → Result PublicKey
local_identity_key s = PublicKey.deserialize s.local_identity_public

unfoldable pub set_previous_counter : ℕ → SessionState → SessionState
set_previous_counter ctr s = record s { previous_counter = ctr }

unfoldable pub root_key : SessionState → Result RootKey
unfolding session_version
root_key s =
    if not (length s.root_key == 32)
    then err invalid_protobuf_encoding
    else (do hkdf ← Kdf.new (session_version s); RootKey.new hkdf s.root_key)

unfoldable pub set_root_key : RootKey → SessionState → SessionState
set_root_key r s = record s { root_key = r.key }

unfoldable pub sender_ratchet_key : SessionState → Result PublicKey
sender_ratchet_key s = elim s.sender_chain [
  | none ↦ err invalid_protobuf_encoding
  | some c ↦ PublicKey.deserialize c.sender_ratchet_key
]

unfoldable pub sender_ratchet_private_key : SessionState → Result PrivateKey
sender_ratchet_private_key s = elim s.sender_chain [
  | none ↦ err invalid_protobuf_encoding
  | some c ↦ PrivateKey.deserialize c.sender_ratchet_key_private
]

unfoldable pub has_sender_chain : SessionState → Bool
has_sender_chain s = elim s.sender_chain [ none ↦ false | some c ↦ true ]

abbrev shift : Option (Chain × ℕ) → Option (Chain × ℕ)
shift none = none
shift (some (c, i)) = some (c, suc i)

-- The loop over the chains: the first whose ratchet key reads as the sender's, with its index.
unfoldable pub find_chain : PublicKey → List Chain → Result (Option (Chain × ℕ))
find_chain sender [] = ok none
find_chain sender (chain ∷ chains) = do
  this_point ← PublicKey.deserialize chain.sender_ratchet_key
  let rest = map_ok shift (find_chain sender chains)
  if bytes_eq (PublicKey.serialize this_point) (PublicKey.serialize sender)
      then ok (some (chain, zero))
      else rest

unfoldable pub get_receiver_chain : PublicKey → SessionState → Result (Option (Chain × ℕ))
get_receiver_chain sender s = find_chain sender s.receiver_chains

unfoldable pub read_chain_key : ℕ → Option Storage.ChainKey → Result ChainKey
read_chain_key version none = err invalid_protobuf_encoding
read_chain_key version (some c) =
    if not (length c.key == 32)
    then err invalid_protobuf_encoding
    else (do hkdf ← Kdf.new version; ChainKey.new hkdf c.key c.index)

unfoldable pub get_receiver_chain_key : PublicKey → SessionState → Result (Option ChainKey)
unfolding get_receiver_chain session_version read_chain_key
get_receiver_chain_key sender s = do
  found ← get_receiver_chain sender s
  elim found [
    | none ↦ ok none
    | some (chain, _) ↦ map_ok some (read_chain_key (session_version s) chain.chain_key)
  ]

unfoldable pub store_chain_key : ChainKey → Storage.ChainKey
store_chain_key c = record { index = c.index; key = c.key }

-- `push`, and `remove(0)` of the oldest chain when there are too many.
unfoldable pub push_chain : Chain → List Chain → List Chain
push_chain chain chains =
    let more = chains ++ chain ∷ [] in
    if ltb max_receiver_chains (length more) then remove_at more 0 else more

unfoldable pub add_receiver_chain : PublicKey → ChainKey → SessionState → SessionState
unfolding store_chain_key
add_receiver_chain sender chain_key s = record s {
  receiver_chains =
      push_chain
        (record {
          sender_ratchet_key = PublicKey.serialize sender;
          sender_ratchet_key_private = [];
          chain_key = some (store_chain_key chain_key);
          message_keys = [];
        })
        s.receiver_chains;
}

unfoldable pub set_sender_chain : KeyPair → ChainKey → SessionState → SessionState
unfolding store_chain_key
set_sender_chain sender next_chain_key s = record s {
  sender_chain = some (record {
    sender_ratchet_key = PublicKey.serialize sender.public_key;
    sender_ratchet_key_private = PrivateKey.serialize sender.private_key;
    chain_key = some (store_chain_key next_chain_key);
    message_keys = [];
  });
}

unfoldable pub get_sender_chain_key : SessionState → Result ChainKey
unfolding session_version
get_sender_chain_key s = do
  sender_chain ← ok_or s.sender_chain (invalid_state "get_sender_chain_key" "No chain")
  chain_key ← ok_or sender_chain.chain_key (invalid_state "get_sender_chain_key" "No chain key")
  hkdf ← Kdf.new (session_version s)
  ChainKey.new hkdf chain_key.key chain_key.index

unfoldable pub with_chain_key : ChainKey → Option Chain → Chain
unfolding store_chain_key
with_chain_key next_chain_key none = record {
  sender_ratchet_key = [];
  sender_ratchet_key_private = [];
  chain_key = some (store_chain_key next_chain_key);
  message_keys = [];
}
with_chain_key next_chain_key (some c) = record c {
  chain_key = some (store_chain_key next_chain_key);
}

unfoldable pub set_sender_chain_key : ChainKey → SessionState → SessionState
unfolding with_chain_key
set_sender_chain_key next_chain_key s = record s {
  sender_chain = some (with_chain_key next_chain_key s.sender_chain);
}

abbrev shift_key : Option (MessageKey × ℕ) → Option (MessageKey × ℕ)
shift_key none = none
shift_key (some (k, i)) = some (k, suc i)

-- `position(|m| m.index == counter)`, with the key found.
unfoldable pub find_message_key : ℕ → List MessageKey → Option (MessageKey × ℕ)
find_message_key counter [] = none
find_message_key counter (m ∷ ms) =
    if m.index == counter then some (m, zero) else shift_key (find_message_key counter ms)

-- A key that is handed out is removed from the chain.
unfoldable pub take_message_key :
    ℕ → SessionState → Chain → ℕ → Result (Option MessageKeys × SessionState)
unfolding find_message_key
take_message_key counter s chain idx = elim (find_message_key counter chain.message_keys) [
  | none ↦ ok (none, s)
  | some (k, position) ↦
      map_ok
        (λ keys. (
          some keys,
          record s {
            receiver_chains =
                set s.receiver_chains idx
                  (record chain { message_keys = remove_at chain.message_keys position });
          },
        ))
        (MessageKeys.new k.cipher_key k.mac_key k.iv counter)
]

unfoldable pub get_message_keys :
    PublicKey → ℕ → SessionState → Result (Option MessageKeys × SessionState)
unfolding get_receiver_chain take_message_key
get_message_keys sender counter s = do
  found ← get_receiver_chain sender s
  elim found [ none ↦ ok (none, s) | some (chain, idx) ↦ take_message_key counter s chain idx ]

unfoldable pub store_message_key : MessageKeys → MessageKey
store_message_key k = record {
  index = k.counter;
  cipher_key = k.cipher_key;
  mac_key = k.mac_key;
  iv = k.iv;
}

-- The newest key is in front, and the oldest goes when there are too many.
unfoldable pub insert_message_key : MessageKey → List MessageKey → List MessageKey
insert_message_key k ks =
    let more = k ∷ ks in if ltb max_message_keys (length more) then drop_last more else more

unfoldable pub set_message_keys : PublicKey → MessageKeys → SessionState → Result SessionState
unfolding get_receiver_chain store_message_key insert_message_key
set_message_keys sender message_keys s = do
  found ← get_receiver_chain sender s
  elim found [
    | none ↦ err (invalid_state "set_message_keys" "No receiver")
    | some (chain, idx) ↦ ok (record s {
      receiver_chains = set s.receiver_chains idx (record chain {
        message_keys = insert_message_key (store_message_key message_keys) chain.message_keys;
      });
    })
  ]

unfoldable pub set_receiver_chain_key : PublicKey → ChainKey → SessionState → Result SessionState
unfolding get_receiver_chain store_chain_key
set_receiver_chain_key sender chain_key s = do
  found ← get_receiver_chain sender s
  elim found [
    | none ↦ err (invalid_state "set_receiver_chain_key" "No receiver")
    | some (chain, idx) ↦ ok (record s {
      receiver_chains =
          set s.receiver_chains idx (record chain { chain_key = some (store_chain_key chain_key) });
    })
  ]

abbrev unwrap_or_zero : Option ℕ → ℕ
unwrap_or_zero none = 0
unwrap_or_zero (some v) = v

unfoldable pub set_unacknowledged_pre_key_message :
    Option ℕ → ℕ → PublicKey → SessionState → SessionState
set_unacknowledged_pre_key_message pre_key_id signed_pre_key_id base_key s = record s {
  pending_pre_key = some (record {
    pre_key_id = unwrap_or_zero pre_key_id;
    signed_pre_key_id = signed_pre_key_id;
    base_key = PublicKey.serialize base_key;
  });
}

unfoldable pub unacknowledged_pre_key_message_items :
    SessionState → Result (Option UnacknowledgedPreKeyMessageItems)
unacknowledged_pre_key_message_items s = elim s.pending_pre_key [
  | none ↦ ok none
  | some pending ↦
      map_ok
        (λ base_key. some (record {
          pre_key_id = if pending.pre_key_id == 0 then none else some pending.pre_key_id;
          signed_pre_key_id = pending.signed_pre_key_id;
          base_key = base_key;
        }))
        (PublicKey.deserialize pending.base_key)
]

unfoldable pub clear_unacknowledged_pre_key_message : SessionState → SessionState
clear_unacknowledged_pre_key_message s = record s { pending_pre_key = none }

unfoldable pub set_remote_registration_id : ℕ → SessionState → SessionState
set_remote_registration_id registration_id s = record s { remote_registration_id = registration_id }

unfoldable pub set_local_registration_id : ℕ → SessionState → SessionState
set_local_registration_id registration_id s = record s { local_registration_id = registration_id }

unfoldable pub set_alice_base_key : Bytes → SessionState → SessionState
set_alice_base_key key s = record s { alice_base_key = key }
