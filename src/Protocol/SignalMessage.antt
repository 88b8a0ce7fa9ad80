-- ===== src/Protocol/SignalMessage.antt =====
-- `SignalMessage` of rust/protocol/src/protocol.rs. `& 0xF`, `<< 4`, `>> 4` and `| 3` of a byte
-- whose low half is 0 are written as arithmetic.
use libsignal_client.Common.{
  ℕ, ◌+◌, ◌-◌, ◌*◌, ◌/◌, ◌%◌, ◌≡◌, refl, Bool, true, Option, none, some, [], ◌∷◌, ◌++◌, arith,
  length, take, drop, length-append, length-take, take-append, drop-append, ltb, ◌==◌, not,
  if◌then◌else◌,
}
use libsignal_client.Common.Bytes.{Bytes}
use libsignal_client.Error.{
  Result, ok, err, ◌>>=◌, ◌>>◌, >>=-eq-ok, ok_or, map_ok, invalid_mac_key_length,
  ciphertext_message_too_short, legacy_ciphertext_version, unrecognized_ciphertext_version,
  protobuf_decoding_error, invalid_protobuf_encoding,
}
use libsignal_client.Primitives.{Primitives, Lawful}
use libsignal_client.Crypto.{hmac_sha256}
use libsignal_client.Curve.PublicKey
use libsignal_client.Curve.PublicKey.{PublicKey, IsKey, deserialize-serialize}
use libsignal_client.Protocol.Wire
use libsignal_client.Protocol.Wire.{Codec, RoundTrips}

abbrev pub ciphertext_message_current_version : ℕ
ciphertext_message_current_version = 3

abbrev pub mac_length : ℕ
mac_length = 8

-- The first byte of a message: its version, and the version of the format.
abbrev pub version_byte : ℕ → ℕ
version_byte message_version = message_version % 16 * 16 + ciphertext_message_current_version

-- The two tests of the low half that every parser makes.
abbrev pub check_version : ℕ → Result (Unit {0})
check_version version =
    if ltb version ciphertext_message_current_version
    then err (legacy_ciphertext_version version)
    else if ltb ciphertext_message_current_version version
    then err (unrecognized_ciphertext_version version)
    else ok tt

pub record SignalMessage : Type 0 where
  pub message_version : ℕ
  pub sender_ratchet_key : PublicKey
  pub counter : ℕ
  pub previous_counter : ℕ
  pub ciphertext : Bytes
  pub serialized : Bytes

module _ ⦃p : Primitives⦄ where
  unfoldable pub compute_mac : PublicKey → PublicKey → Bytes → Bytes → Result Bytes
  compute_mac sender_identity_key receiver_identity_key mac_key message =
      if not (length mac_key == 32)
      then err (invalid_mac_key_length (length mac_key))
      else ok (
          take mac_length (
            hmac_sha256 mac_key (
              PublicKey.serialize sender_identity_key
              ++ (PublicKey.serialize receiver_identity_key ++ message))))

  unfoldable pub verify_mac : SignalMessage → PublicKey → PublicKey → Bytes → Result Bool
  verify_mac m sender_identity_key receiver_identity_key mac_key =
      let split = length m.serialized - mac_length in
      map_ok (λ our_mac. p.ct_eq our_mac (drop split m.serialized))
        (compute_mac sender_identity_key receiver_identity_key mac_key (take split m.serialized))

-- The version byte and the encoded structure, which the message code covers.
unfoldable pub covered : ⦃c : Codec⦄ → ℕ → PublicKey → ℕ → ℕ → Bytes → Bytes
covered ⦃c⦄ message_version sender_ratchet_key counter previous_counter ciphertext =
    version_byte message_version
    ∷ c.encode_signal (record {
      ratchet_key = some (PublicKey.serialize sender_ratchet_key);
      counter = some counter;
      previous_counter = some previous_counter;
      ciphertext = some ciphertext;
    })

unfoldable pub new :
    ⦃p : Primitives⦄
    → ⦃c : Codec⦄ → ℕ
    → Bytes
    → PublicKey
    → ℕ
    → ℕ
    → Bytes
    → PublicKey
    → PublicKey
    → Result SignalMessage
new message_version mac_key sender_ratchet_key counter previous_counter ciphertext
      sender_identity_key receiver_identity_key =
    do
      let body = covered message_version sender_ratchet_key counter previous_counter ciphertext
      mac ← compute_mac sender_identity_key receiver_identity_key mac_key body
      ok (record {
        message_version = message_version;
        sender_ratchet_key = sender_ratchet_key;
        counter = counter;
        previous_counter = previous_counter;
        ciphertext = ciphertext;
        serialized = body ++ mac;
      })

abbrev pub or_zero : Option ℕ → ℕ
or_zero none = 0
or_zero (some n) = n

-- The fields of a decoded structure.
unfoldable pub of_structure : ℕ → Bytes → Wire.SignalMessage → Result SignalMessage
of_structure message_version value proto_structure = do
  key_bytes ← ok_or proto_structure.ratchet_key invalid_protobuf_encoding
  sender_ratchet_key ← PublicKey.deserialize key_bytes
  counter ← ok_or proto_structure.counter invalid_protobuf_encoding
  ciphertext ← ok_or proto_structure.ciphertext invalid_protobuf_encoding
  ok (record {
    message_version = message_version;
    sender_ratchet_key = sender_ratchet_key;
    counter = counter;
    previous_counter = or_zero proto_structure.previous_counter;
    ciphertext = ciphertext;
    serialized = value;
  })

-- Past the test of the length, a message has a first byte.
unfoldable pub try_from : ⦃c : Codec⦄ → Bytes → Result SignalMessage
unfolding of_structure
try_from [] = err (ciphertext_message_too_short 0)
try_from ⦃c⦄ (first ∷ rest) =
    let value = first ∷ rest in
    if ltb (length value) (mac_length + 1)
    then err (ciphertext_message_too_short (length value))
    else do
      check_version (first % 16)
      proto_structure ←
          ok_or (c.decode_signal (take (length rest - mac_length) rest)) protobuf_decoding_error
      of_structure (first / 16) value proto_structure

module _ ⦃p : Primitives⦄ ⦃c : Codec⦄ (laws : Lawful p) where
  pub length-compute_mac :
      (sender receiver : PublicKey) (mac_key message : Bytes) {mac : Bytes}
      → compute_mac sender receiver mac_key message ≡ ok mac
      → length mac ≡ mac_length
  unfolding compute_mac hmac_sha256
  length-compute_mac sender receiver mac_key message h =
      let text = PublicKey.serialize sender ++ (PublicKey.serialize receiver ++ message) in
      ground (arith, length-take 8 (p.hmac mac_key text), laws.hmac_length mac_key text)

module _ ⦃p : Primitives⦄ ⦃c : Codec⦄ (laws : Lawful p) (v : ℕ) (mac_key : Bytes) (key : PublicKey)
    (counter previous : ℕ) (ciphertext : Bytes) (sender receiver : PublicKey) {m : SignalMessage}
    (made : new v mac_key key counter previous ciphertext sender receiver ≡ ok m) where
  abbrev body : Bytes
  body = covered v key counter previous ciphertext

  -- What a new message holds.
  pub record Made : Type 0 where
    pub mac : Bytes
    pub signed : compute_mac sender receiver mac_key body ≡ ok mac
    pub fields : m ≡ record {
      message_version = v;
      sender_ratchet_key = key;
      counter = counter;
      previous_counter = previous;
      ciphertext = ciphertext;
      serialized = body ++ mac;
    }
    pub size : length mac ≡ mac_length

  pub new-Made : Made
  unfolding new
  new-Made =
      let (mac, signed, e) = >>=-eq-ok (compute_mac sender receiver mac_key body) _ made in
      record {
        mac = mac;
        signed = signed;
        fields = ground (arith, e);
        size = length-compute_mac laws sender receiver mac_key body signed;
      }

  -- The message code of a new message is accepted under the same keys.
  pub verify_mac-new : verify_mac m sender receiver mac_key ≡ ok true
  unfolding verify_mac
  verify_mac-new =
      let i = new-Made in
      let split : length (body ++ i.mac) - 8 ≡ length body =
        omega (arith, length-append body i.mac, i.size) in
      rw (
        i.fields,
        verify_mac,
        split,
        take-append body i.mac (length body) refl,
        i.signed,
        drop-append body i.mac (length body) refl,
        (laws.ct_eq_iff i.mac i.mac).1 refl,
      )

  -- A message that was made with a sender's ratchet key of 32 bytes, by a codec that reads back what
  -- it writes, is parsed back from its bytes, with the low four bits of its version, which are the
  -- version where it is below 16.
  pub try_from-new :
      RoundTrips c → IsKey key → try_from m.serialized ≡ ok (record m { message_version = v % 16 })
  unfolding try_from covered
  try_from-new trips sized =
      let i = new-Made in
      let structure : Wire.SignalMessage = record {
        ratchet_key = some (PublicKey.serialize key);
        counter = some counter;
        previous_counter = some previous;
        ciphertext = some ciphertext;
      } in
      let encoded = c.encode_signal structure in
      let whole = length-append encoded i.mac in
      let split : length (encoded ++ i.mac) - 8 ≡ length encoded = omega (arith, whole, i.size) in
      let front : take (length (encoded ++ i.mac) - 8) (encoded ++ i.mac) ≡ encoded =
        rw split (take-append encoded i.mac (length encoded) refl) in
      rw (i.fields) (
        ground
          (arith, whole, i.size, front, trips.signal structure, deserialize-serialize key sized))
