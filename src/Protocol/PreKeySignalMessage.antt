-- ===== src/Protocol/PreKeySignalMessage.antt =====
-- `PreKeySignalMessage` of rust/protocol/src/protocol.rs. `new` returns `Ok` on every path.
use libsignal_client.Common.{ℕ, ◌/◌, ◌%◌, ◌≡◌, Option, some, [], ◌∷◌, inl, inr, arith}
use libsignal_client.Common.Bytes.{Bytes}
use libsignal_client.Error.{
  Result, Result-cases, ok, err, ◌>>=◌, ◌>>◌, ok_or, ciphertext_message_too_short,
  protobuf_decoding_error, invalid_protobuf_encoding,
}
use libsignal_client.Curve.PublicKey
use libsignal_client.Curve.PublicKey.{PublicKey, IsKey, deserialize-serialize}
use libsignal_client.Protocol.Wire
use libsignal_client.Protocol.Wire.{Codec, RoundTrips}
use libsignal_client.Protocol.SignalMessage
use libsignal_client.Protocol.SignalMessage.{SignalMessage, version_byte, check_version, or_zero}

pub record PreKeySignalMessage : Type 0 where
  pub message_version : ℕ
  pub registration_id : ℕ
  pub pre_key_id : Option ℕ
  pub signed_pre_key_id : ℕ
  pub base_key : PublicKey
  pub identity_key : PublicKey
  pub message : SignalMessage
  pub serialized : Bytes

abbrev structure :
    ℕ → Option ℕ → ℕ → PublicKey → PublicKey → SignalMessage → Wire.PreKeySignalMessage
structure registration_id pre_key_id signed_pre_key_id base_key identity_key message = record {
  registration_id = some registration_id;
  pre_key_id = pre_key_id;
  signed_pre_key_id = some signed_pre_key_id;
  base_key = some (PublicKey.serialize base_key);
  identity_key = some (PublicKey.serialize identity_key);
  message = some message.serialized;
}

unfoldable pub new :
    ⦃c : Codec⦄ → ℕ → ℕ → Option ℕ → ℕ → PublicKey → PublicKey → SignalMessage → PreKeySignalMessage
new ⦃c⦄ message_version registration_id pre_key_id signed_pre_key_id base_key identity_key message =
    record {
      message_version = message_version;
      registration_id = registration_id;
      pre_key_id = pre_key_id;
      signed_pre_key_id = signed_pre_key_id;
      base_key = base_key;
      identity_key = identity_key;
      message = message;
      serialized =
          version_byte message_version
          ∷ c.encode_pre_key_signal (
              structure registration_id pre_key_id signed_pre_key_id base_key identity_key message);
    }

-- The presence of all four fields is tested before any of them is read.
unfoldable pub of_structure :
    ⦃c : Codec⦄ → ℕ → Bytes → Wire.PreKeySignalMessage → Result PreKeySignalMessage
of_structure message_version value proto_structure = do
  signed_pre_key_id ← ok_or proto_structure.signed_pre_key_id invalid_protobuf_encoding
  base_bytes ← ok_or proto_structure.base_key invalid_protobuf_encoding
  identity_bytes ← ok_or proto_structure.identity_key invalid_protobuf_encoding
  message_bytes ← ok_or proto_structure.message invalid_protobuf_encoding
  base_key ← PublicKey.deserialize base_bytes
  identity_key ← PublicKey.deserialize identity_bytes
  message ← SignalMessage.try_from message_bytes
  ok (record {
    message_version = message_version;
    registration_id = or_zero proto_structure.registration_id;
    pre_key_id = proto_structure.pre_key_id;
    signed_pre_key_id = signed_pre_key_id;
    base_key = base_key;
    identity_key = identity_key;
    message = message;
    serialized = value;
  })

unfoldable pub try_from : ⦃c : Codec⦄ → Bytes → Result PreKeySignalMessage
unfolding of_structure
try_from [] = err (ciphertext_message_too_short 0)
try_from ⦃c⦄ (first ∷ rest) = do
  check_version (first % 16)
  proto_structure ← ok_or (c.decode_pre_key_signal rest) protobuf_decoding_error
  of_structure (first / 16) (first ∷ rest) proto_structure

-- What was built with two public keys of 32 bytes, by a codec that reads back what it writes, is
-- parsed back from its bytes, with the low four bits of its version and with what the parser makes of
-- the bytes of the message inside it; where these cannot be parsed, the error is the same.
pub try_from-new_pre_key :
    ⦃c : Codec⦄
    → RoundTrips c
    → (v registration : ℕ) (pre_key_id : Option ℕ) (signed : ℕ) (base identity : PublicKey)
      (m : SignalMessage)
    → IsKey base
    → IsKey identity
    → try_from (new v registration pre_key_id signed base identity m).serialized ≡ (
        SignalMessage.try_from m.serialized >>= λ inner.
        ok (record (new v registration pre_key_id signed base identity m) {
          message_version = v % 16;
          message = inner;
        }))
unfolding try_from new
try_from-new_pre_key trips v registration pre_key_id signed base identity m sized sized' =
    elim (Result-cases (SignalMessage.try_from m.serialized)) [
      | inl (inner, parsed) ↦ ground (
        arith,
        parsed,
        trips.pre_key_signal (structure registration pre_key_id signed base identity m),
        deserialize-serialize base sized,
        deserialize-serialize identity sized',
      )
      | inr (failure, refused) ↦ ground (
        arith,
        refused,
        trips.pre_key_signal (structure registration pre_key_id signed base identity m),
        deserialize-serialize base sized,
        deserialize-serialize identity sized',
      )
    ]
