-- ===== src/Ratchet/RootKey.antt =====
-- `RootKey` of rust/protocol/src/ratchet/keys.rs. `create_chain` returns `Ok` on every path.
use libsignal_client.Common.{◌≡◌, length, slice, ◌==◌, if◌then◌else◌}
use libsignal_client.Common.Bytes.{Bytes, ascii}
use libsignal_client.Error.{Result, ok, err, invalid_root_key_length}
use libsignal_client.Primitives.{Primitives, Lawful}
use libsignal_client.Curve.PublicKey.{PublicKey}
use libsignal_client.Curve.PrivateKey.{PrivateKey, public_key, calculate_agreement}
use libsignal_client.Kdf.{Hkdf, derive_salted_secrets}
use libsignal_client.Ratchet.ChainKey.{ChainKey}

pub record RootKey : Type 0 where
  pub kdf : Hkdf
  pub key : Bytes

unfoldable pub new : Hkdf → Bytes → Result RootKey
new kdf key =
    if length key == 32
    then ok (record { kdf = kdf; key = key })
    else err (invalid_root_key_length (length key))

module _ ⦃p : Primitives⦄ where
  unfoldable pub create_chain : RootKey → PublicKey → PrivateKey → RootKey × ChainKey
  create_chain r their_ratchet_key our_ratchet_key =
      let shared_secret = calculate_agreement their_ratchet_key our_ratchet_key in
      let derived_secret_bytes =
        derive_salted_secrets r.kdf shared_secret r.key (ascii "WhisperRatchet") 64 in
      (
        record { kdf = r.kdf; key = slice 0 32 derived_secret_bytes },
        record { kdf = r.kdf; key = slice 32 64 derived_secret_bytes; index = 0 },
      )

  -- The Diffie-Hellman function commutes: both parties agree on the secret.
  pub agreement_comm :
      (laws : Lawful p) (a b : PrivateKey)
      → calculate_agreement (public_key b) a ≡ calculate_agreement (public_key a) b
  unfolding calculate_agreement public_key
  agreement_comm laws a b = laws.x25519_comm a.key b.key

  -- A ratchet step by one party gives the chain that the other party's step gives.
  pub create_chain_comm :
      (laws : Lawful p) (r : RootKey) (a b : PrivateKey)
      → create_chain r (public_key b) a ≡ create_chain r (public_key a) b
  unfolding create_chain
  create_chain_comm laws r a b = rw (agreement_comm laws a b)
