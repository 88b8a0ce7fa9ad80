-- ===== src/Curve/PrivateKey.antt =====
-- `PrivateKey` of rust/protocol/src/curve.rs. The methods that return `Ok` on every path are
-- modelled by their values.
use libsignal_client.Common.{ℕ, ◌≡◌, arith, length, ◌==◌, if◌then◌else◌}
use libsignal_client.Common.Bytes.{Bytes}
use libsignal_client.Error.{djb, Result, ok, err, bad_key_length}
use libsignal_client.Primitives.{Primitives}
use libsignal_client.Curve.PublicKey.{PublicKey}

pub record PrivateKey : Type 0 where
  pub key : Bytes

unfoldable pub deserialize : Bytes → Result PrivateKey
deserialize value =
    if length value == 32
    then ok (record { key = value })
    else err (bad_key_length djb (length value))

unfoldable pub serialize : PrivateKey → Bytes
serialize k = k.key

pub deserialize-serialize : (k : PrivateKey) → length k.key ≡ 32 → deserialize (serialize k) ≡ ok k
unfolding deserialize serialize
deserialize-serialize k h = ground arith

module _ ⦃p : Primitives⦄ where
  unfoldable pub public_key : PrivateKey → PublicKey
  public_key k = record { key = p.x25519_public k.key }

  -- With the generator after the 64 bytes that the signature draws.
  unfoldable pub calculate_signature : PrivateKey → Bytes → ℕ → Bytes × ℕ
  calculate_signature k message csprng =
      let (random, csprng') = p.fill_bytes 64 csprng in
      (p.xeddsa_sign k.key message random, csprng')

  unfoldable pub calculate_agreement : PublicKey → PrivateKey → Bytes
  calculate_agreement their_key our_key = p.x25519 our_key.key their_key.key
