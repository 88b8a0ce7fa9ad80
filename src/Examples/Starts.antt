-- ===== src/Examples/Starts.antt =====
-- Stores, bundles, first messages and group records.
use libsignal_client.Common.{ℕ, none, some, [], ◌∷◌}
use libsignal_client.Common.Bytes.{Bytes}
use libsignal_client.Error.{Result, ok, err}
use libsignal_client.Examples.ToyPrimitives.{toy}
use libsignal_client.Examples.ToyCodec.{toy_codec}
use libsignal_client.Examples.Sessions.{
  key_of, public_of, hello, no_session, signal, session_record, home, sender,
}
use libsignal_client.Curve.PublicKey
use libsignal_client.Curve.PublicKey.{PublicKey}
use libsignal_client.Ratchet.Setup.{initialize_alice_session, initialize_bob_session}
use libsignal_client.Ratchet.Setup.Agree.{alice, bob}
use libsignal_client.Protocol.SignalMessage
use libsignal_client.Protocol.SignalMessage.{SignalMessage}
use libsignal_client.Protocol.Ciphertext.{CiphertextMessage, signal_message}
use libsignal_client.Session.Process.{process_prekey_bundle}
use libsignal_client.SessionCipher.Encrypt.{encrypt_with_state}
use libsignal_client.SessionCipher.Encrypt.Handshake.{dressed_alice, dressed_bob}
use libsignal_client.SessionCipher.Messages.{message_decrypt, message_encrypt}
use libsignal_client.State.Session.{SessionState}
use libsignal_client.State.Bundle.{PreKeyBundle}
use libsignal_client.Storage.Stores.{Stores}
use libsignal_client.Group.SenderKeys.{SenderChainKey, new_state}
use libsignal_client.Group.Record.{SenderKeyName, SenderKeyRecord}
use libsignal_client.Group.Cipher.{encrypt_with_record}
use libsignal_client.Group.Store.{GroupStores}

abbrev pub session_of : Result SessionState → SessionState
session_of (ok s) = s
session_of (err e) = no_session

-- The sessions of a key agreement, with what is written to them.
abbrev pub alice_0 : SessionState
alice_0 =
    session_of
      (initialize_alice_session
        (alice (key_of 1) (key_of 2) (key_of 3) (key_of 4) (some (key_of 5))) 7).0

abbrev pub bob_0 : SessionState
bob_0 =
    session_of
      (initialize_bob_session (bob (key_of 1) (key_of 2) (key_of 3) (key_of 4) (some (key_of 5))))

abbrev pub alice_1 : SessionState
alice_1 = dressed_alice (some 8) 9 10 11 (public_of 2) alice_0

abbrev pub bob_1 : SessionState
bob_1 = dressed_bob 11 10 (public_of 2) bob_0

abbrev pub first_sent : Result (CiphertextMessage × SessionState × PublicKey)
first_sent = encrypt_with_state hello alice_1

-- A store with the receiver's session, and another identity key than the session's.
abbrev pub stores : Stores
stores = record {
  session_store = (home, session_record) ∷ [];
  identity_store = record {
    key_pair = record { identity_key = public_of 2; private_key = key_of 2 };
    id = 4;
    known_keys = (home, public_of 3) ∷ [];
  };
  pre_key_store = [];
  signed_pre_key_store = [];
  csprng = 5;
}

abbrev pub late : Result Bytes × Stores
late = message_decrypt (signal_message signal) home stores

abbrev pub sending_stores : Stores
sending_stores = record stores {
  session_store = (home, record { current_session = some sender; previous_sessions = [] }) ∷ [];
}

abbrev pub refused : Result CiphertextMessage × Stores
refused = message_encrypt hello home sending_stores

abbrev pub bundle : PreKeyBundle
bundle = record {
  registration_id = 1;
  device_id = 2;
  pre_key_id = some 3;
  pre_key_public = some (public_of 4);
  signed_pre_key_id = 5;
  signed_pre_key_public = public_of 6;
  signed_pre_key_signature = toy.xeddsa_sign (key_of 3).key (PublicKey.serialize (public_of 6)) [];
  identity_key = public_of 3;
}

abbrev pub processed : Result (Unit {0}) × Stores
processed = process_prekey_bundle home bundle stores

abbrev pub forged : PreKeyBundle
forged = record bundle { signed_pre_key_public = public_of 7 }

abbrev pub rejected : Result (Unit {0}) × Stores
rejected = process_prekey_bundle home forged stores

abbrev pub group_chain : SenderChainKey
group_chain = record { iteration = 0; chain_key = (key_of 7).key }

abbrev pub group_sender : SenderKeyRecord
group_sender = new_state 6 0 (key_of 7).key (public_of 9) (some (key_of 9)) ∷ []

abbrev pub group_receiver : SenderKeyRecord
group_receiver = new_state 6 0 (key_of 7).key (public_of 9) none ∷ []

abbrev pub group_sent : Result (Bytes × SenderKeyRecord) × ℕ
group_sent = encrypt_with_record hello 5 group_sender

abbrev pub bytes_of : Result (Bytes × SenderKeyRecord) → Bytes
bytes_of (ok (b, r)) = b
bytes_of (err e) = []

abbrev pub record_of : Result (Bytes × SenderKeyRecord) → SenderKeyRecord
record_of (ok (b, r)) = r
record_of (err e) = []

abbrev pub group_name : SenderKeyName
group_name = record { group_id = "g"; sender = home }

abbrev pub group_stores : GroupStores
group_stores = record { sender_key_store = (group_name, group_receiver) ∷ []; csprng = 5 }

abbrev pub group_garbled : Bytes
group_garbled = 51 ∷ 7 ∷ []

abbrev pub made : Result SignalMessage
made =
    SignalMessage.new 3 (key_of 5).key (public_of 9) 3 0 (key_of 8).key (public_of 1) (public_of 2)

abbrev pub made_of : Result SignalMessage → SignalMessage
made_of (ok m) = m
made_of (err e) = signal
