-- ===== src/Bridge/Ffi/Codes.antt =====
-- The error codes of rust/bridge/ffi/src/util.rs.
use libsignal_client.Common.{ℕ}
use libsignal_client.Error.{
  SignalProtocolError, invalid_state, invalid_argument, protobuf_decoding_error,
  protobuf_encoding_error, invalid_protobuf_encoding, ciphertext_message_too_short,
  legacy_ciphertext_version, unrecognized_ciphertext_version, unrecognized_message_version,
  fingerprint_identifier_mismatch, fingerprint_version_mismatch, no_key_type_identifier,
  bad_key_type, bad_key_length, signature_validation_failed, untrusted_identity, invalid_pre_key_id,
  invalid_signed_pre_key_id, invalid_sender_key_id, invalid_ciphertext, no_sender_key_state,
  session_not_found, invalid_session_structure, duplicated_message, invalid_message,
}
use libsignal_client.Bridge.Ffi.{
  SignalFfiError, signal, insufficient_output_size, null_pointer, invalid_utf8_string,
  unexpected_panic, callback_error, invalid_type,
}

-- A constructor that an error has too is named with `_code`.
pub data SignalErrorCode : Type 0 where
  unknown_error : SignalErrorCode
  invalid_state_code : SignalErrorCode
  internal_error_code : SignalErrorCode
  null_parameter : SignalErrorCode
  invalid_argument_code : SignalErrorCode
  invalid_type_code : SignalErrorCode
  invalid_utf8_string_code : SignalErrorCode
  insufficient_output_size_code : SignalErrorCode
  protobuf_error : SignalErrorCode
  invalid_ciphertext_code : SignalErrorCode
  legacy_ciphertext_version_code : SignalErrorCode
  unknown_ciphertext_version : SignalErrorCode
  unrecognized_message_version_code : SignalErrorCode
  invalid_message_code : SignalErrorCode
  invalid_key : SignalErrorCode
  invalid_signature : SignalErrorCode
  fingerprint_identifier_mismatch_code : SignalErrorCode
  fingerprint_version_mismatch_code : SignalErrorCode
  untrusted_identity_code : SignalErrorCode
  invalid_key_identifier : SignalErrorCode
  session_not_found_code : SignalErrorCode
  duplicated_message_code : SignalErrorCode
  callback_error_code : SignalErrorCode

unfoldable pub value : SignalErrorCode → ℕ
value unknown_error = 1
value invalid_state_code = 2
value internal_error_code = 3
value null_parameter = 4
value invalid_argument_code = 5
value invalid_type_code = 6
value invalid_utf8_string_code = 7
value insufficient_output_size_code = 8
value protobuf_error = 10
value invalid_ciphertext_code = 20
value legacy_ciphertext_version_code = 21
value unknown_ciphertext_version = 22
value unrecognized_message_version_code = 23
value invalid_message_code = 30
value invalid_key = 40
value invalid_signature = 41
value fingerprint_identifier_mismatch_code = 50
value fingerprint_version_mismatch_code = 51
value untrusted_identity_code = 60
value invalid_key_identifier = 70
value session_not_found_code = 80
value duplicated_message_code = 90
value callback_error_code = 100

-- The codes of the errors of the protocol. Those that are not named are unknown.
unfoldable pub signal_code : SignalProtocolError → SignalErrorCode
signal_code protobuf_encoding_error = protobuf_error
signal_code protobuf_decoding_error = protobuf_error
signal_code (duplicated_message index counter) = duplicated_message_code
signal_code invalid_pre_key_id = invalid_key_identifier
signal_code invalid_signed_pre_key_id = invalid_key_identifier
signal_code invalid_sender_key_id = invalid_key_identifier
signal_code signature_validation_failed = invalid_signature
signal_code no_key_type_identifier = invalid_key
signal_code (bad_key_type t) = invalid_key
signal_code (bad_key_length t n) = invalid_key
signal_code session_not_found = session_not_found_code
signal_code fingerprint_identifier_mismatch = fingerprint_identifier_mismatch_code
signal_code fingerprint_version_mismatch = fingerprint_version_mismatch_code
signal_code (ciphertext_message_too_short n) = invalid_ciphertext_code
signal_code invalid_ciphertext = invalid_ciphertext_code
signal_code (unrecognized_message_version v) = unrecognized_message_version_code
signal_code (unrecognized_ciphertext_version v) = unknown_ciphertext_version
signal_code (invalid_message text) = invalid_message_code
signal_code invalid_protobuf_encoding = invalid_message_code
signal_code (legacy_ciphertext_version v) = legacy_ciphertext_version_code
signal_code (untrusted_identity address) = untrusted_identity_code
signal_code (invalid_state place text) = invalid_state_code
signal_code no_sender_key_state = invalid_state_code
signal_code invalid_session_structure = invalid_state_code
signal_code (invalid_argument text) = invalid_argument_code
signal_code e = unknown_error

unfoldable pub from : SignalFfiError → SignalErrorCode
unfolding signal_code
from null_pointer = null_parameter
from invalid_type = invalid_type_code
from unexpected_panic = internal_error_code
from (callback_error c) = callback_error_code
from invalid_utf8_string = invalid_utf8_string_code
from (insufficient_output_size n h) = insufficient_output_size_code
from (signal e) = signal_code e
