-- ===== src/Curve/KeyPair.antt =====
-- `KeyPair` of rust/protocol/src/curve.rs and of rust/protocol/src/curve/curve25519.rs.
use libsignal_client.Common.{ℕ}
use libsignal_client.Common.Bytes.{Bytes}
use libsignal_client.Error.{Result, ok, ◌>>=◌}
use libsignal_client.Primitives.{Primitives}
use libsignal_client.Curve.PublicKey
use libsignal_client.Curve.PublicKey.{PublicKey}
use libsignal_client.Curve.PrivateKey
use libsignal_client.Curve.PrivateKey.{PrivateKey}

pub record KeyPair : Type 0 where
  pub public_key : PublicKey
  pub private_key : PrivateKey

unfoldable pub generate : ⦃p : Primitives⦄ → ℕ → KeyPair × ℕ
generate ⦃p⦄ csprng =
    let (secret, csprng') = p.static_secret csprng in
    (
      record {
        public_key = record { key = p.x25519_public secret };
        private_key = record { key = secret };
      },
      csprng',
    )

unfoldable pub from_public_and_private : Bytes → Bytes → Result KeyPair
from_public_and_private public private = do
  public_key ← PublicKey.deserialize public
  private_key ← PrivateKey.deserialize private
  ok (record { public_key = public_key; private_key = private_key })

unfoldable pub new : PublicKey → PrivateKey → KeyPair
new public_key private_key = record { public_key = public_key; private_key = private_key }

module _ ⦃p : Primitives⦄ where
  unfoldable pub calculate_signature : KeyPair → Bytes → ℕ → Bytes × ℕ
  calculate_signature k message csprng = PrivateKey.calculate_signature k.private_key message csprng

  unfoldable pub calculate_agreement : KeyPair → PublicKey → Bytes
  calculate_agreement k their_key = PrivateKey.calculate_agreement their_key k.private_key
