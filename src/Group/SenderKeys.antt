-- ===== src/Group/SenderKeys.antt =====
-- `SenderMessageKey`, `SenderChainKey` and `SenderKeyState` of rust/protocol/src/sender_keys.rs. A
-- method that returns `Ok` on every path is modelled by its value; the iteration is a `u32`.
use libsignal_client.Common.{
  ℕ, zero, suc, ◌+◌, ◌-◌, ◌%◌, Bool, false, ◌||◌, Option, none, some, List, [], ◌∷◌, ◌++◌, length,
  slice, drop, remove_at, ◌==◌, if◌then◌else◌,
}
use libsignal_client.Common.Bytes.{Bytes, ascii}
use libsignal_client.Consts.{max_message_keys}
use libsignal_client.Error.{
  Result, ok, err, map_ok, ok_or, invalid_protobuf_encoding, signature_pubkey_missing,
}
use libsignal_client.Primitives.{Primitives}
use libsignal_client.Crypto.{hmac_sha256}
use libsignal_client.Curve.PublicKey
use libsignal_client.Curve.PublicKey.{PublicKey}
use libsignal_client.Curve.PrivateKey
use libsignal_client.Curve.PrivateKey.{PrivateKey}
use libsignal_client.Kdf.{Hkdf, derive_secrets}
use libsignal_client.Proto.Storage
use libsignal_client.Proto.Storage.{SenderKeyStateStructure}
use libsignal_client.Ratchet.ChainKey.{u32_mod}

pub record SenderMessageKey : Type 0 where
  pub iteration : ℕ
  pub iv : Bytes
  pub cipher_key : Bytes
  pub seed : Bytes

pub record SenderChainKey : Type 0 where
  pub iteration : ℕ
  pub chain_key : Bytes

abbrev pub SenderKeyState : Type 0
SenderKeyState = SenderKeyStateStructure

-- `HKDF::new(3)`
abbrev pub hkdf_3 : Hkdf
hkdf_3 = record { iteration_start_offset = 1 }

module _ ⦃p : Primitives⦄ where
  unfoldable pub new_message_key : ℕ → Bytes → SenderMessageKey
  new_message_key iteration seed =
      let derived = derive_secrets hkdf_3 seed (ascii "WhisperGroup") 48 in
      record {
        iteration = iteration;
        seed = seed;
        iv = slice 0 16 derived;
        cipher_key = slice 16 48 derived;
      }

  unfoldable pub get_derivative : SenderChainKey → ℕ → Bytes
  get_derivative k label = hmac_sha256 k.chain_key (label ∷ [])

  unfoldable pub next : SenderChainKey → SenderChainKey
  unfolding get_derivative
  next k = record { iteration = (k.iteration + 1) % u32_mod; chain_key = get_derivative k 0x02 }

  unfoldable pub sender_message_key : SenderChainKey → SenderMessageKey
  unfolding new_message_key get_derivative
  sender_message_key k = new_message_key k.iteration (get_derivative k 0x01)

unfoldable pub message_key_as_protobuf : SenderMessageKey → Storage.SenderMessageKey
message_key_as_protobuf k = record { iteration = k.iteration; seed = k.seed }

unfoldable pub chain_key_as_protobuf : SenderChainKey → Storage.SenderChainKey
chain_key_as_protobuf k = record { iteration = k.iteration; seed = k.chain_key }

abbrev private_bytes : Option PrivateKey → Bytes
unfolding PrivateKey.serialize
private_bytes none = []
private_bytes (some k) = PrivateKey.serialize k

unfoldable pub new_state : ℕ → ℕ → Bytes → PublicKey → Option PrivateKey → SenderKeyState
unfolding chain_key_as_protobuf private_bytes
new_state id iteration chain_key signature_key signature_private_key = record {
  sender_key_id = id;
  sender_chain_key =
      some (chain_key_as_protobuf (record { iteration = iteration; chain_key = chain_key }));
  sender_signing_key = some (record {
    public = PublicKey.serialize signature_key;
    private = private_bytes signature_private_key;
  });
  sender_message_keys = [];
}

unfoldable pub sender_chain_key : SenderKeyState → Result SenderChainKey
sender_chain_key s =
    map_ok (λ c. record { iteration = c.iteration; chain_key = c.seed })
      (ok_or s.sender_chain_key invalid_protobuf_encoding)

unfoldable pub set_sender_chain_key : SenderChainKey → SenderKeyState → SenderKeyState
unfolding chain_key_as_protobuf
set_sender_chain_key k s = record s { sender_chain_key = some (chain_key_as_protobuf k) }

unfoldable pub signing_key_public : SenderKeyState → Result PublicKey
signing_key_public s = elim s.sender_signing_key [
  | none ↦ err signature_pubkey_missing
  | some k ↦ PublicKey.deserialize k.public
]

unfoldable pub signing_key_private : SenderKeyState → Result (Option PrivateKey)
signing_key_private s = elim s.sender_signing_key [
  | none ↦ ok none
  | some k ↦ map_ok some (PrivateKey.deserialize k.private)
]

abbrev any_iteration : ℕ → List Storage.SenderMessageKey → Bool
any_iteration iteration [] = false
any_iteration iteration (k ∷ ks) = k.iteration == iteration || any_iteration iteration ks

unfoldable pub has_sender_message_key : ℕ → SenderKeyState → Bool
has_sender_message_key iteration s = any_iteration iteration s.sender_message_keys

-- `push`, and the loop that removes the oldest keys while there are too many.
unfoldable pub add_sender_message_key : SenderMessageKey → SenderKeyState → SenderKeyState
unfolding message_key_as_protobuf
add_sender_message_key k s =
    let more = s.sender_message_keys ++ message_key_as_protobuf k ∷ [] in
    record s { sender_message_keys = drop (length more - max_message_keys) more }

abbrev shift : Option (Storage.SenderMessageKey × ℕ) → Option (Storage.SenderMessageKey × ℕ)
shift none = none
shift (some (k, i)) = some (k, suc i)

-- `position(|x| x.iteration == iteration)`, with the key found.
unfoldable pub find_iteration :
    ℕ → List Storage.SenderMessageKey → Option (Storage.SenderMessageKey × ℕ)
find_iteration iteration [] = none
find_iteration iteration (k ∷ ks) =
    if k.iteration == iteration then some (k, zero) else shift (find_iteration iteration ks)

unfoldable pub remove_sender_message_key :
    ⦃p : Primitives⦄ → ℕ → SenderKeyState → Option SenderMessageKey × SenderKeyState
unfolding find_iteration new_message_key
remove_sender_message_key iteration s = elim (find_iteration iteration s.sender_message_keys) [
  | none ↦ (none, s)
  | some (k, index) ↦ (
    some (new_message_key k.iteration k.seed),
    record s { sender_message_keys = remove_at s.sender_message_keys index },
  )
]
