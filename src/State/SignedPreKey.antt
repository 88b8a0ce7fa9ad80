-- ===== src/State/SignedPreKey.antt =====
-- rust/protocol/src/state/signed_prekey.rs
use libsignal_client.Common.{ℕ, ◌≡◌, arith, length}
use libsignal_client.Common.Bytes.{Bytes}
use libsignal_client.Error.{Result, ok, ok_or, protobuf_decoding_error}
use libsignal_client.Curve.PublicKey
use libsignal_client.Curve.PublicKey.{PublicKey, IsKey}
use libsignal_client.Curve.PrivateKey
use libsignal_client.Curve.PrivateKey.{PrivateKey}
use libsignal_client.Curve.KeyPair.{KeyPair, from_public_and_private}
use libsignal_client.Proto.Storage.{SignedPreKeyRecordStructure}
use libsignal_client.Proto.StorageCodec.{StorageCodec}

abbrev pub SignedPreKeyRecord : Type 0
SignedPreKeyRecord = SignedPreKeyRecordStructure

unfoldable pub new : ℕ → ℕ → KeyPair → Bytes → SignedPreKeyRecord
new id timestamp key signature = record {
  id = id;
  timestamp = timestamp;
  public_key = PublicKey.serialize key.public_key;
  private_key = PrivateKey.serialize key.private_key;
  signature = signature;
}

unfoldable pub deserialize : ⦃c : StorageCodec⦄ → Bytes → Result SignedPreKeyRecord
deserialize ⦃c⦄ bytes = ok_or (c.signed_pre_key.decode bytes) protobuf_decoding_error

unfoldable pub serialize : ⦃c : StorageCodec⦄ → SignedPreKeyRecord → Bytes
serialize ⦃c⦄ r = c.signed_pre_key.encode r

unfoldable pub timestamp : SignedPreKeyRecord → ℕ
timestamp r = r.timestamp

unfoldable pub signature : SignedPreKeyRecord → Bytes
signature r = r.signature

unfoldable pub id : SignedPreKeyRecord → ℕ
id r = r.id

unfoldable pub key_pair : SignedPreKeyRecord → Result KeyPair
key_pair r = from_public_and_private r.public_key r.private_key

unfoldable pub public_key : SignedPreKeyRecord → Result PublicKey
public_key r = PublicKey.deserialize r.public_key

unfoldable pub private_key : SignedPreKeyRecord → Result PrivateKey
private_key r = PrivateKey.deserialize r.private_key

pub key_pair-new :
    (id timestamp : ℕ) (k : KeyPair) (signature : Bytes)
    → IsKey k.public_key
    → length k.private_key.key ≡ 32
    → key_pair (new id timestamp k signature) ≡ ok k
unfolding key_pair new from_public_and_private
key_pair-new id timestamp k signature h h' = ground (
  arith,
  PublicKey.deserialize-serialize k.public_key h,
  PrivateKey.deserialize-serialize k.private_key h',
)
