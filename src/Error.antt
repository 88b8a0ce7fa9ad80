-- ===== src/Error.antt =====
-- rust/protocol/src/error.rs: the error type and `Result`. The payloads of the two protobuf
-- errors are opaque values of the prost crate and are left out.
use libsignal_client.Common.{
  ℕ, String, ◌≡◌, ◌⊎◌, inl, inr, refl, Bool, true, false, Option, none, some,
}
use libsignal_client.Address.{ProtocolAddress}

-- A signed number, as the library's ℤ on native numbers: `negsuc n` is -(n + 1).
pub data ℤ : Type 0 where
  pos negsuc : ℕ → ℤ

-- `KeyType` of rust/protocol/src/curve.rs.
pub data KeyType : Type 0 where
  djb : KeyType

pub data SignalProtocolError : Type 0 where
  invalid_argument : String → SignalProtocolError
  invalid_state : String → String → SignalProtocolError
  protobuf_decoding_error protobuf_encoding_error : SignalProtocolError
  invalid_protobuf_encoding : SignalProtocolError
  ciphertext_message_too_short : ℕ → SignalProtocolError
  legacy_ciphertext_version unrecognized_ciphertext_version : ℕ → SignalProtocolError
  unrecognized_message_version : ℕ → SignalProtocolError
  fingerprint_identifier_mismatch fingerprint_version_mismatch : SignalProtocolError
  no_key_type_identifier : SignalProtocolError
  bad_key_type : ℕ → SignalProtocolError
  bad_key_length : KeyType → ℕ → SignalProtocolError
  mismatched_key_types : KeyType → KeyType → SignalProtocolError
  mismatched_signature_length_for_key : KeyType → ℕ → SignalProtocolError
  signature_validation_failed signature_pubkey_missing : SignalProtocolError
  untrusted_identity : ProtocolAddress → SignalProtocolError
  invalid_pre_key_id invalid_signed_pre_key_id invalid_sender_key_id : SignalProtocolError
  invalid_pre_key_bundle : SignalProtocolError
  invalid_root_key_length invalid_chain_key_length : ℕ → SignalProtocolError
  invalid_mac_key_length : ℕ → SignalProtocolError
  invalid_cipher_cryptographic_parameters : ℕ → ℕ → SignalProtocolError
  invalid_ciphertext : SignalProtocolError
  no_sender_key_state sender_key_signing_key_missing : SignalProtocolError
  session_not_found invalid_session_structure : SignalProtocolError
  duplicated_message : ℕ → ℕ → SignalProtocolError
  invalid_message internal_error ffi_binding_error : String → SignalProtocolError
  application_callback_threw_exception : String → Option String → String → SignalProtocolError
  application_callback_returned_integer_error : String → ℤ → SignalProtocolError

pub data Result {ℓ} (A : Type ℓ) : Type ℓ where
  err : SignalProtocolError → Result A
  ok : A → Result A

pub Result-cases {ℓ} :
    {A : Type ℓ} (r : Result A) → ((a : A) × (r ≡ ok a)) ⊎ ((e : SignalProtocolError) × (r ≡ err e))
Result-cases (ok a) = inl (a, refl)
Result-cases (err e) = inr (e, refl)

-- `ok_or`
abbrev pub ok_or {ℓ} : {A : Type ℓ} → Option A → SignalProtocolError → Result A
ok_or none failure = err failure
ok_or (some found) failure = ok found

-- `map` of the standard `Result`.
abbrev pub map_ok {ℓ κ} : {A : Type ℓ} {B : Type κ} → (A → B) → Result A → Result B
map_ok f (err failure) = err failure
map_ok f (ok result) = ok (f result)

-- The `?` of the source: the rest runs on the value, or the error is returned.
infixl 5 ◌>>=◌ ◌>>◌
abbrev pub ◌>>=◌ {ℓ κ} : {A : Type ℓ} {B : Type κ} → Result A → (A → Result B) → Result B
err failure >>= rest = err failure
ok result >>= rest = rest result

-- What a successful run of two steps says of each.
pub >>=-eq-ok {ℓ κ} :
    {A : Type ℓ} {B : Type κ} (r : Result A) (rest : A → Result B) {out : B}
    → (r >>= rest) ≡ ok out
    → (a : A) × (r ≡ ok a) × (rest a ≡ ok out)
>>=-eq-ok (err failure) rest h = cc
>>=-eq-ok (ok result) rest h = (result, refl, h)

-- An early `return Err(e)` unless the test holds.
abbrev pub require : Bool → SignalProtocolError → Result (Unit {0})
require false failure = err failure
require true failure = ok tt

abbrev pub ◌>>◌ {ℓ κ} : {A : Type ℓ} {B : Type κ} → Result A → Result B → Result B
first >> rest = first >>= λ _. rest
