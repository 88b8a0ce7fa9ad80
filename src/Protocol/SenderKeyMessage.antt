-- ===== src/Protocol/SenderKeyMessage.antt =====
-- `SenderKeyMessage` of rust/protocol/src/protocol.rs. `new` returns `Ok` on every path.
use libsignal_client.Common.{
  ℕ, ◌+◌, ◌-◌, ◌/◌, ◌%◌, ◌≡◌, refl, Bool, true, some, [], ◌∷◌, ◌++◌, arith, length, take, drop, ltb,
  if◌then◌else◌, length-append, take-append, drop-append,
}
use libsignal_client.Common.Bytes.{Bytes}
use libsignal_client.Error.{
  Result, ok, err, ◌>>=◌, ◌>>◌, ok_or, ciphertext_message_too_short, protobuf_decoding_error,
  invalid_protobuf_encoding,
}
use libsignal_client.Primitives.{Primitives, Lawful}
use libsignal_client.Curve.PublicKey.{PublicKey, verify_signature}
use libsignal_client.Curve.PrivateKey.{PrivateKey, public_key, calculate_signature}
use libsignal_client.Protocol.Wire
use libsignal_client.Protocol.Wire.{Codec, RoundTrips}
use libsignal_client.Protocol.SignalMessage.{
  ciphertext_message_current_version, version_byte, check_version,
}

abbrev pub signature_len : ℕ
signature_len = 64

pub record SenderKeyMessage : Type 0 where
  pub message_version : ℕ
  pub key_id : ℕ
  pub iteration : ℕ
  pub ciphertext : Bytes
  pub serialized : Bytes

-- The version byte and the encoded structure, which the signature covers.
unfoldable pub signed : ⦃c : Codec⦄ → ℕ → ℕ → Bytes → Bytes
signed ⦃c⦄ key_id iteration ciphertext =
    version_byte ciphertext_message_current_version
    ∷ c.encode_sender_key
        (record { id = some key_id; iteration = some iteration; ciphertext = some ciphertext })

-- With the generator after the signature.
unfoldable pub new :
    ⦃p : Primitives⦄ → ⦃c : Codec⦄ → ℕ → ℕ → Bytes → ℕ → PrivateKey → SenderKeyMessage × ℕ
new key_id iteration ciphertext csprng signature_key =
    let body = signed key_id iteration ciphertext in
    let (signature, csprng') = calculate_signature signature_key body csprng in
    (
      record {
        message_version = ciphertext_message_current_version;
        key_id = key_id;
        iteration = iteration;
        ciphertext = ciphertext;
        serialized = body ++ signature;
      },
      csprng',
    )

unfoldable pub message_verify_signature :
    ⦃p : Primitives⦄ → SenderKeyMessage → PublicKey → Result Bool
message_verify_signature m signature_key =
    let split = length m.serialized - signature_len in
    verify_signature signature_key (take split m.serialized) (drop split m.serialized)

unfoldable pub of_structure : ℕ → Bytes → Wire.SenderKeyMessage → Result SenderKeyMessage
of_structure message_version value proto_structure = do
  key_id ← ok_or proto_structure.id invalid_protobuf_encoding
  iteration ← ok_or proto_structure.iteration invalid_protobuf_encoding
  ciphertext ← ok_or proto_structure.ciphertext invalid_protobuf_encoding
  ok (record {
    message_version = message_version;
    key_id = key_id;
    iteration = iteration;
    ciphertext = ciphertext;
    serialized = value;
  })

unfoldable pub try_from : ⦃c : Codec⦄ → Bytes → Result SenderKeyMessage
unfolding of_structure
try_from [] = err (ciphertext_message_too_short 0)
try_from ⦃c⦄ (first ∷ rest) =
    let value = first ∷ rest in
    if ltb (length value) (1 + signature_len)
    then err (ciphertext_message_too_short (length value))
    else do
      check_version (first % 16)
      proto_structure ←
          ok_or (c.decode_sender_key (take (length rest - signature_len) rest))
            protobuf_decoding_error
      of_structure (first / 16) value proto_structure

module _ ⦃p : Primitives⦄ ⦃c : Codec⦄ (laws : Lawful p) (key_id iteration : ℕ) (text : Bytes)
    (csprng : ℕ) (k : PrivateKey) where
  -- The signature of a new message is accepted under the public key of the signing key.
  pub message_verify_signature-new :
      message_verify_signature (new key_id iteration text csprng k).0 (public_key k) ≡ ok true
  unfolding message_verify_signature new calculate_signature verify_signature public_key
  message_verify_signature-new =
      let body = signed key_id iteration text in
      let random = (p.fill_bytes 64 csprng).0 in
      let signature = p.xeddsa_sign k.key body random in
      let size = laws.xeddsa_length k.key body random in
      let split : length (body ++ signature) - 64 ≡ length body =
        omega (arith, length-append body signature, size) in
      rw
        (
          split,
          take-append body signature (length body) refl,
          drop-append body signature (length body) refl,
          size,
          laws.xeddsa_correct k.key body random,
        )
        refl

  -- A new message, by a codec that reads back what it writes, is parsed back from its bytes.
  pub try_from-new_sender_key :
      RoundTrips c
      → try_from (new key_id iteration text csprng k).0.serialized
        ≡ ok (new key_id iteration text csprng k).0
  unfolding try_from new signed calculate_signature
  try_from-new_sender_key trips =
      let body = signed key_id iteration text in
      let signature = p.xeddsa_sign k.key body (p.fill_bytes 64 csprng).0 in
      let size = laws.xeddsa_length k.key body (p.fill_bytes 64 csprng).0 in
      let structure : Wire.SenderKeyMessage = record {
        id = some key_id;
        iteration = some iteration;
        ciphertext = some text;
      } in
      let encoded = c.encode_sender_key structure in
      let whole = length-append encoded signature in
      let split : length (encoded ++ signature) - 64 ≡ length encoded =
        omega (arith, whole, size) in
      let front : take (length (encoded ++ signature) - 64) (encoded ++ signature) ≡ encoded =
        rw split (take-append encoded signature (length encoded) refl) in
      ground (arith, whole, size, front, trips.sender_key structure)
