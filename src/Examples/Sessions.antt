-- ===== src/Examples/Sessions.antt =====
-- Two sessions in step, and what they send.
use libsignal_client.Common.{ℕ, false, none, some, [], ◌∷◌, replicate}
use libsignal_client.Common.Bytes.{Bytes}
use libsignal_client.Error.{Result, ok, err}
use libsignal_client.Examples.ToyPrimitives.{toy}
use libsignal_client.Examples.ToyCodec.{toy_codec}
use libsignal_client.Address.{ProtocolAddress}
use libsignal_client.Curve.PublicKey
use libsignal_client.Curve.PublicKey.{PublicKey}
use libsignal_client.Curve.PrivateKey.{PrivateKey, public_key}
use libsignal_client.Kdf.{Hkdf}
use libsignal_client.Protocol.SignalMessage.{SignalMessage}
use libsignal_client.Protocol.Ciphertext.{
  CiphertextMessage, signal_message, pre_key_signal_message, sender_key_message,
  sender_key_distribution_message,
}
use libsignal_client.Proto.Storage
use libsignal_client.Ratchet.ChainKey.{ChainKey}
use libsignal_client.State.Session.{SessionState}
use libsignal_client.State.Record.{SessionRecord}
use libsignal_client.SessionCipher.Encrypt.{encrypt_with_state}
use libsignal_client.SessionCipher.Keys.{Working}
use libsignal_client.SessionCipher.Decrypt.{Opened, decrypt_message_with_record}

-- Keys of 32 equal bytes.
unfoldable pub key_of : ℕ → PrivateKey
unfolding replicate
key_of n = record { key = replicate 32 n }

abbrev pub public_of : ℕ → PublicKey
public_of n = public_key (key_of n)

abbrev pub v3 : Hkdf
v3 = record { iteration_start_offset = 1 }

abbrev pub no_session : SessionState
no_session = record {
  session_version = 3;
  local_identity_public = [];
  remote_identity_public = [];
  root_key = (key_of 6).key;
  previous_counter = 0;
  sender_chain = none;
  receiver_chains = [];
  pending_pre_key = none;
  remote_registration_id = 0;
  local_registration_id = 0;
  needs_refresh = false;
  alice_base_key = [];
}

abbrev pub chain_key : ChainKey
chain_key = record { kdf = v3; key = (key_of 7).key; index = 3 }

abbrev pub chain_of : ℕ → Bytes → Storage.Chain
chain_of ratchet private = record {
  sender_ratchet_key = PublicKey.serialize (public_of ratchet);
  sender_ratchet_key_private = private;
  chain_key = some (record { index = 3; key = (key_of 7).key });
  message_keys = [];
}

-- The sender has the identity key 1 and the ratchet key 9, the receiver the identity key 2.
abbrev pub sender : SessionState
sender = record no_session {
  local_identity_public = PublicKey.serialize (public_of 1);
  remote_identity_public = PublicKey.serialize (public_of 2);
  sender_chain = some (chain_of 9 (key_of 9).key);
}

abbrev pub receiver : SessionState
receiver = record no_session {
  local_identity_public = PublicKey.serialize (public_of 2);
  remote_identity_public = PublicKey.serialize (public_of 1);
  sender_chain = some (chain_of 8 (key_of 8).key);
  receiver_chains = chain_of 9 [] ∷ [];
}

abbrev pub hello : Bytes
hello = 104 ∷ 105 ∷ []

abbrev pub Made : Type 0
Made = Result (CiphertextMessage × SessionState × PublicKey)

abbrev pub no_signal : SignalMessage
no_signal = record {
  message_version = 0;
  sender_ratchet_key = public_of 0;
  counter = 0;
  previous_counter = 0;
  ciphertext = [];
  serialized = [];
}

abbrev pub message_of : Made → CiphertextMessage
message_of (ok (m, s, k)) = m
message_of (err e) = signal_message no_signal

abbrev pub state_of : Made → SessionState
state_of (ok (m, s, k)) = s
state_of (err e) = no_session

abbrev pub signal_of : CiphertextMessage → SignalMessage
signal_of (signal_message m) = m
signal_of (pre_key_signal_message m) = m.message
signal_of (sender_key_message m) = no_signal
signal_of (sender_key_distribution_message m) = no_signal

abbrev pub sent : Made
sent = encrypt_with_state hello sender

abbrev pub signal : SignalMessage
signal = signal_of (message_of sent)

abbrev pub working : Working
working = record { state = receiver; csprng = 5 }

abbrev pub session_record : SessionRecord
session_record = record { current_session = some receiver; previous_sessions = [] }

abbrev pub opened : Opened
opened = record { sessions = session_record; csprng = 5 }

abbrev pub received : Result Bytes × Opened
received = decrypt_message_with_record signal opened

abbrev pub again : Result Bytes × Opened
again = decrypt_message_with_record signal received.1

abbrev pub home : ProtocolAddress
home = record { name = "b"; device_id = 1 }
