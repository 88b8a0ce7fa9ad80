-- ===== src/Ratchet/MessageKeys.antt =====
-- `MessageKeys` of rust/protocol/src/ratchet/keys.rs.
use libsignal_client.Common.{
  ℕ, ◌-◌, ◌≤◌, ◌≡◌, not, ◌||◌, arith, length, slice, drop, length-take, length-drop, ◌==◌,
  if◌then◌else◌,
}
use libsignal_client.Common.Bytes.{Bytes, ascii}
use libsignal_client.Error.{
  Result, ok, err, invalid_mac_key_length, invalid_cipher_cryptographic_parameters,
}
use libsignal_client.Primitives.{Primitives, Lawful}
use libsignal_client.Kdf.{Hkdf, derive_secrets}
use libsignal_client.Kdf.Rfc5869.{length-derive_secrets}

pub record MessageKeys : Type 0 where
  pub cipher_key : Bytes
  pub mac_key : Bytes
  pub iv : Bytes
  pub counter : ℕ

-- `derive_keys` returns `Ok` on every path.
unfoldable pub derive_keys : ⦃p : Primitives⦄ → Bytes → Hkdf → ℕ → MessageKeys
derive_keys input_key_material kdf counter =
    let okm = derive_secrets kdf input_key_material (ascii "WhisperMessageKeys") 80 in
    record {
      cipher_key = slice 0 32 okm;
      mac_key = slice 32 64 okm;
      iv = slice 64 80 okm;
      counter = counter;
    }

unfoldable pub new : Bytes → Bytes → Bytes → ℕ → Result MessageKeys
new cipher_key mac_key iv counter =
    if not (length mac_key == 32)
    then err (invalid_mac_key_length (length mac_key))
    else if not (length cipher_key == 32) || not (length iv == 16)
    then err (invalid_cipher_cryptographic_parameters (length cipher_key) (length iv))
    else ok (record { cipher_key = cipher_key; mac_key = mac_key; iv = iv; counter = counter })

-- The sizes of the arrays.
pub record IsSized (k : MessageKeys) : Type 0 where
  pub cipher_key_length : length k.cipher_key ≡ 32
  pub mac_key_length : length k.mac_key ≡ 32
  pub iv_length : length k.iv ≡ 16

pub length-slice : (a b : ℕ) (okm : Bytes) → a ≤ b → b ≤ length okm → length (slice a b okm) ≡ b - a
unfolding slice
length-slice a b okm h k = omega (arith, length-take (b - a) (drop a okm), length-drop a okm)

pub derive_keys-IsSized :
    ⦃p : Primitives⦄
    → (laws : Lawful p) (input : Bytes) (kdf : Hkdf) (counter : ℕ)
    → IsSized (derive_keys input kdf counter)
unfolding derive_keys
derive_keys-IsSized laws input kdf counter =
    let okm = derive_secrets kdf input (ascii "WhisperMessageKeys") 80 in
    let size = length-derive_secrets laws kdf input (ascii "WhisperMessageKeys") 80 in
    record {
      cipher_key_length = length-slice 0 32 okm (omega arith) (omega (arith, size));
      mac_key_length = length-slice 32 64 okm (omega arith) (omega (arith, size));
      iv_length = length-slice 64 80 okm (omega arith) (omega (arith, size));
    }

-- Keys that were derived pass the checks that keys read from storage meet.
pub new_sized : (k : MessageKeys) → IsSized k → new k.cipher_key k.mac_key k.iv k.counter ≡ ok k
unfolding new
new_sized k s = ground arith
