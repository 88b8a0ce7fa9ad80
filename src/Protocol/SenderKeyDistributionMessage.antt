-- ===== src/Protocol/SenderKeyDistributionMessage.antt =====
-- `SenderKeyDistributionMessage` of rust/protocol/src/protocol.rs. `new` returns `Ok` on every
-- path.
use libsignal_client.Common.{
  ℕ, ◌+◌, ◌/◌, ◌≤◌, ◌≡◌, not, ◌||◌, some, [], ◌∷◌, arith, length, ltb, ◌==◌, if◌then◌else◌,
}
use libsignal_client.Common.Bytes.{Bytes}
use libsignal_client.Error.{
  Result, ok, err, ◌>>=◌, ◌>>◌, ok_or, ciphertext_message_too_short, protobuf_decoding_error,
  invalid_protobuf_encoding,
}
use libsignal_client.Curve.PublicKey
use libsignal_client.Curve.PublicKey.{PublicKey, IsKey, deserialize-serialize}
use libsignal_client.Protocol.Wire
use libsignal_client.Protocol.Wire.{Codec, RoundTrips}
use libsignal_client.Protocol.SignalMessage.{
  ciphertext_message_current_version, version_byte, check_version,
}

pub record SenderKeyDistributionMessage : Type 0 where
  pub message_version : ℕ
  pub id : ℕ
  pub iteration : ℕ
  pub chain_key : Bytes
  pub signing_key : PublicKey
  pub serialized : Bytes

unfoldable pub new : ⦃c : Codec⦄ → ℕ → ℕ → Bytes → PublicKey → SenderKeyDistributionMessage
new ⦃c⦄ id iteration chain_key signing_key = record {
  message_version = ciphertext_message_current_version;
  id = id;
  iteration = iteration;
  chain_key = chain_key;
  signing_key = signing_key;
  serialized =
      version_byte ciphertext_message_current_version
      ∷ c.encode_distribution (record {
        id = some id;
        iteration = some iteration;
        chain_key = some chain_key;
        signing_key = some (PublicKey.serialize signing_key);
      });
}

unfoldable pub of_structure :
    ℕ → Bytes → Wire.SenderKeyDistributionMessage → Result SenderKeyDistributionMessage
of_structure message_version value proto_structure = do
  id ← ok_or proto_structure.id invalid_protobuf_encoding
  iteration ← ok_or proto_structure.iteration invalid_protobuf_encoding
  chain_key ← ok_or proto_structure.chain_key invalid_protobuf_encoding
  signing_bytes ← ok_or proto_structure.signing_key invalid_protobuf_encoding
  signing_key ←
      (if not (length chain_key == 32) || not (length signing_bytes == 33)
        then err invalid_protobuf_encoding
        else PublicKey.deserialize signing_bytes)
  ok (record {
    message_version = message_version;
    id = id;
    iteration = iteration;
    chain_key = chain_key;
    signing_key = signing_key;
    serialized = value;
  })

-- The version that is tested is the high half of the first byte; the low half is not looked at.
unfoldable pub try_from : ⦃c : Codec⦄ → Bytes → Result SenderKeyDistributionMessage
unfolding of_structure
try_from [] = err (ciphertext_message_too_short 0)
try_from ⦃c⦄ (first ∷ rest) =
    if ltb (length (first ∷ rest)) (1 + 32 + 32)
    then err (ciphertext_message_too_short (length (first ∷ rest)))
    else do
      check_version (first / 16)
      proto_structure ← ok_or (c.decode_distribution rest) protobuf_decoding_error
      of_structure (first / 16) (first ∷ rest) proto_structure

-- What was built with keys of the right size is parsed back, where the encoding is not shorter than
-- the two keys in it.
pub try_from-new_distribution :
    ⦃c : Codec⦄
    → RoundTrips c
    → (id iteration : ℕ) (chain_key : Bytes) (signing_key : PublicKey) → length chain_key ≡ 32
    → IsKey signing_key
    → 65 ≤ length (new id iteration chain_key signing_key).serialized
    → try_from (new id iteration chain_key signing_key).serialized
      ≡ ok (new id iteration chain_key signing_key)
unfolding try_from new PublicKey.serialize
try_from-new_distribution trips id iteration chain_key signing_key size sized long = ground (
  arith,
  trips.distribution (record {
    id = some id;
    iteration = some iteration;
    chain_key = some chain_key;
    signing_key = some (PublicKey.serialize signing_key);
  }),
  deserialize-serialize signing_key sized,
)
