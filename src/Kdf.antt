-- ===== src/Kdf.antt =====
-- rust/protocol/src/kdf.rs. `derive_secrets`, `derive_salted_secrets` and `extract` return `Ok` on
-- every path and are modelled by their values.
pub mod Rfc5869
use libsignal_client.Common.{
  ℕ, zero, suc, ◌+◌, ◌-◌, ◌/◌, ◌%◌, [], ◌∷◌, ◌++◌, length, take, drop, replicate, ltb, leb, ◌==◌,
  if◌then◌else◌,
}
use libsignal_client.Common.Bytes.{Bytes}
use libsignal_client.Error.{Result, ok, err, unrecognized_message_version}
use libsignal_client.Primitives.{Primitives}

pub record Hkdf : Type 0 where
  pub iteration_start_offset : ℕ

abbrev pub hash_output_size : ℕ
hash_output_size = 32

unfoldable pub new : ℕ → Result Hkdf
new message_version =
    if message_version == 2
    then ok (record { iteration_start_offset = 0 })
    else if message_version == 3
    then ok (record { iteration_start_offset = 1 })
    else err (unrecognized_message_version message_version)

module _ ⦃p : Primitives⦄ where
  unfoldable pub extract : Bytes → Bytes → Bytes
  extract salt input_key_material = p.hmac salt input_key_material

  -- The last block of the result, once there is one.
  unfoldable pub last_block : Bytes → Bytes
  last_block result =
      if leb hash_output_size (length result)
      then drop (length result - hash_output_size) result
      else []

  -- The loop with `n` rounds left, at index `i`. The counter is a `u8`, and its sum wraps.
  unfoldable pub expand_loop : Hkdf → Bytes → Bytes → ℕ → ℕ → Bytes → Bytes
  expand_loop kdf prk info zero i result = result
  expand_loop kdf prk info (suc n) i result =
      let d =
        p.hmac prk
          (last_block result ++ (info ++ ((i % 256 + kdf.iteration_start_offset) % 256) ∷ [])) in
      expand_loop kdf prk info n (i + 1) (result ++ d)

  unfoldable pub expand : Hkdf → Bytes → Bytes → ℕ → Bytes
  expand kdf prk info output_length =
      let iterations = (output_length + hash_output_size - 1) / hash_output_size in
      take output_length (expand_loop kdf prk info iterations 0 [])

  unfoldable pub derive_salted_secrets : Hkdf → Bytes → Bytes → Bytes → ℕ → Bytes
  derive_salted_secrets kdf input_key_material salt info output_length =
      expand kdf (extract salt input_key_material) info output_length

  unfoldable pub derive_secrets : Hkdf → Bytes → Bytes → ℕ → Bytes
  derive_secrets kdf input_key_material info output_length =
      derive_salted_secrets kdf input_key_material (replicate hash_output_size 0) info output_length
