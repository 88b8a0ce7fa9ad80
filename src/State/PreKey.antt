-- ===== src/State/PreKey.antt =====
-- rust/protocol/src/state/prekey.rs
use libsignal_client.Common.{ℕ, ◌≡◌, arith, length}
use libsignal_client.Common.Bytes.{Bytes}
use libsignal_client.Error.{Result, ok, ok_or, protobuf_decoding_error}
use libsignal_client.Curve.PublicKey
use libsignal_client.Curve.PublicKey.{PublicKey, IsKey}
use libsignal_client.Curve.PrivateKey
use libsignal_client.Curve.PrivateKey.{PrivateKey}
use libsignal_client.Curve.KeyPair.{KeyPair, from_public_and_private}
use libsignal_client.Proto.Storage.{PreKeyRecordStructure}
use libsignal_client.Proto.StorageCodec.{StorageCodec}

abbrev pub PreKeyRecord : Type 0
PreKeyRecord = PreKeyRecordStructure

unfoldable pub new : ℕ → KeyPair → PreKeyRecord
new id key = record {
  id = id;
  public_key = PublicKey.serialize key.public_key;
  private_key = PrivateKey.serialize key.private_key;
}

unfoldable pub deserialize : ⦃c : StorageCodec⦄ → Bytes → Result PreKeyRecord
deserialize ⦃c⦄ bytes = ok_or (c.pre_key.decode bytes) protobuf_decoding_error

unfoldable pub serialize : ⦃c : StorageCodec⦄ → PreKeyRecord → Bytes
serialize ⦃c⦄ r = c.pre_key.encode r

unfoldable pub id : PreKeyRecord → ℕ
id r = r.id

unfoldable pub key_pair : PreKeyRecord → Result KeyPair
key_pair r = from_public_and_private r.public_key r.private_key

unfoldable pub public_key : PreKeyRecord → Result PublicKey
public_key r = PublicKey.deserialize r.public_key

unfoldable pub private_key : PreKeyRecord → Result PrivateKey
private_key r = PrivateKey.deserialize r.private_key

pub key_pair-new :
    (id : ℕ) (k : KeyPair)
    → IsKey k.public_key
    → length k.private_key.key ≡ 32
    → key_pair (new id k) ≡ ok k
unfolding key_pair new from_public_and_private
key_pair-new id k h h' = ground (
  arith,
  PublicKey.deserialize-serialize k.public_key h,
  PrivateKey.deserialize-serialize k.private_key h',
)
