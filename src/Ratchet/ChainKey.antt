-- ===== src/Ratchet/ChainKey.antt =====
-- `ChainKey` of rust/protocol/src/ratchet/keys.rs. `next_chain_key`, `message_keys` and
-- `calculate_base_material` return `Ok` on every path. The index is a `u32`, and its sum wraps.
use libsignal_client.Common.{
  ℕ, ◌+◌, ◌%◌, ◌^◌, ◌<◌, ◌≡◌, refl, [], ◌∷◌, arith, length, ◌==◌, if◌then◌else◌,
}
use libsignal_client.Common.Bytes.{Bytes}
use libsignal_client.Error.{Result, ok, err, invalid_chain_key_length}
use libsignal_client.Primitives.{Primitives, Lawful}
use libsignal_client.Kdf.{Hkdf}
use libsignal_client.Crypto.{hmac_sha256}
use libsignal_client.Ratchet.MessageKeys.{MessageKeys, derive_keys, IsSized, derive_keys-IsSized}

abbrev pub u32_mod : ℕ
u32_mod = 2 ^ 32

pub record ChainKey : Type 0 where
  pub kdf : Hkdf
  pub key : Bytes
  pub index : ℕ

abbrev message_key_seed : Bytes
message_key_seed = 0x01 ∷ []

abbrev chain_key_seed : Bytes
chain_key_seed = 0x02 ∷ []

unfoldable pub new : Hkdf → Bytes → ℕ → Result ChainKey
new kdf key index =
    if length key == 32
    then ok (record { kdf = kdf; key = key; index = index })
    else err (invalid_chain_key_length (length key))

module _ ⦃p : Primitives⦄ where
  unfoldable pub calculate_base_material : ChainKey → Bytes → Bytes
  calculate_base_material c seed = hmac_sha256 c.key seed

  unfoldable pub next_chain_key : ChainKey → ChainKey
  next_chain_key c = record {
    kdf = c.kdf;
    key = calculate_base_material c chain_key_seed;
    index = (c.index + 1) % u32_mod;
  }

  unfoldable pub message_keys : ChainKey → MessageKeys
  message_keys c = derive_keys (calculate_base_material c message_key_seed) c.kdf c.index

  pub message_keys-IsSized : (laws : Lawful p) (c : ChainKey) → IsSized (message_keys c)
  unfolding message_keys
  message_keys-IsSized laws c = derive_keys-IsSized laws _ c.kdf c.index

  pub counter-message_keys : (c : ChainKey) → (message_keys c).counter ≡ c.index
  unfolding message_keys derive_keys
  counter-message_keys c = refl

  pub length-next_chain_key : (laws : Lawful p) (c : ChainKey) → length (next_chain_key c).key ≡ 32
  unfolding next_chain_key calculate_base_material hmac_sha256
  length-next_chain_key laws c = laws.hmac_length c.key chain_key_seed

  pub index-next_chain_key :
      (c : ChainKey) → c.index + 1 < u32_mod → (next_chain_key c).index ≡ c.index + 1
  unfolding next_chain_key
  index-next_chain_key c h = omega arith
