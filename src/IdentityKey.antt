-- ===== src/IdentityKey.antt =====
-- rust/protocol/src/identity_key.rs. `IdentityKey` is a wrapper of `PublicKey`, and is that type.
use libsignal_client.Common.{ℕ}
use libsignal_client.Common.Bytes.{Bytes}
use libsignal_client.Error.{Result, ok, ok_or, ◌>>=◌, protobuf_decoding_error}
use libsignal_client.Primitives.{Primitives}
use libsignal_client.Curve.PublicKey
use libsignal_client.Curve.PublicKey.{PublicKey}
use libsignal_client.Curve.PrivateKey
use libsignal_client.Curve.PrivateKey.{PrivateKey}
use libsignal_client.Curve.KeyPair
use libsignal_client.Curve.KeyPair.{KeyPair}
use libsignal_client.Proto.Storage.{IdentityKeyPairStructure}
use libsignal_client.Proto.StorageCodec.{StorageCodec}

-- `IdentityKey::decode`, and `try_from` of a slice.
unfoldable pub decode : Bytes → Result PublicKey
decode value = PublicKey.deserialize value

pub record IdentityKeyPair : Type 0 where
  pub identity_key : PublicKey
  pub private_key : PrivateKey

unfoldable pub from_key_pair : KeyPair → IdentityKeyPair
from_key_pair k = record { identity_key = k.public_key; private_key = k.private_key }

unfoldable pub generate : ⦃p : Primitives⦄ → ℕ → IdentityKeyPair × ℕ
unfolding from_key_pair
generate csprng = let (k, csprng') = KeyPair.generate csprng in (from_key_pair k, csprng')

abbrev structure : IdentityKeyPair → IdentityKeyPairStructure
structure k = record {
  public_key = PublicKey.serialize k.identity_key;
  private_key = PrivateKey.serialize k.private_key;
}

abbrev from_structure : IdentityKeyPairStructure → Result IdentityKeyPair
unfolding decode
from_structure s = do
  identity_key ← decode s.public_key
  private_key ← PrivateKey.deserialize s.private_key
  ok (record { identity_key = identity_key; private_key = private_key })

unfoldable pub serialize : ⦃c : StorageCodec⦄ → IdentityKeyPair → Bytes
serialize ⦃c⦄ k = c.identity_key_pair.encode (structure k)

-- `try_from` of a slice.
unfoldable pub try_from : ⦃c : StorageCodec⦄ → Bytes → Result IdentityKeyPair
unfolding from_structure
try_from ⦃c⦄ value =
    ok_or (c.identity_key_pair.decode value) protobuf_decoding_error >>= from_structure
