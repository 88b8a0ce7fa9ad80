-- ===== src/Curve/Functions.antt =====
-- The functions of rust/protocol/src/curve.rs, each of which is a method of a key.
use libsignal_client.Common.{ℕ, Bool}
use libsignal_client.Common.Bytes.{Bytes}
use libsignal_client.Error.{Result}
use libsignal_client.Primitives.{Primitives}
use libsignal_client.Curve.PublicKey
use libsignal_client.Curve.PublicKey.{PublicKey}
use libsignal_client.Curve.PrivateKey
use libsignal_client.Curve.PrivateKey.{PrivateKey}

module _ ⦃p : Primitives⦄ where
  unfoldable pub verify_signature : PublicKey → Bytes → Bytes → Result Bool
  verify_signature public_key message signature =
      PublicKey.verify_signature public_key message signature

  unfoldable pub calculate_signature : ℕ → PrivateKey → Bytes → Bytes × ℕ
  calculate_signature csprng private_key message =
      PrivateKey.calculate_signature private_key message csprng

  unfoldable pub calculate_agreement : PublicKey → PrivateKey → Bytes
  calculate_agreement public_key private_key = PrivateKey.calculate_agreement public_key private_key

unfoldable pub decode_private_point : Bytes → Result PrivateKey
decode_private_point value = PrivateKey.deserialize value

unfoldable pub decode_point : Bytes → Result PublicKey
decode_point v = PublicKey.deserialize v
