-- ===== src/Examples/Arrival.antt =====
-- A first message that arrives at the stores of its receiver.
use libsignal_client.Common.{ℕ, ◌≡◌, refl, false, Option, none, some, [], ◌∷◌}
use libsignal_client.Common.Bytes.{Bytes}
use libsignal_client.Error.{Result, ok, err, invalid_pre_key_id}
use libsignal_client.Examples.ToyPrimitives.{toy}
use libsignal_client.Examples.ToyCodec.{toy_codec}
use libsignal_client.Examples.Sessions.{key_of, public_of, hello, home, no_signal, message_of}
use libsignal_client.Examples.Starts.{first_sent}
use libsignal_client.Curve.PublicKey
use libsignal_client.Protocol.PreKeySignalMessage.{PreKeySignalMessage}
use libsignal_client.Protocol.Ciphertext.{CiphertextMessage, pre_key_signal_message}
use libsignal_client.Session.Process.{or_fresh}
use libsignal_client.SessionCipher.Messages.{message_decrypt_prekey}
use libsignal_client.SessionCipher.Messages.Spent.{message_decrypt_prekey-spent}
use libsignal_client.State.PreKey
use libsignal_client.State.SignedPreKey
use libsignal_client.State.Record.{SessionRecord, has_session_state}
use libsignal_client.Storage.{load_session, get_pre_key}
use libsignal_client.Storage.Stores.{Stores}

abbrev arrival_of : CiphertextMessage → PreKeySignalMessage
arrival_of (pre_key_signal_message m) = m
arrival_of other = record {
  message_version = 0;
  registration_id = 0;
  pre_key_id = none;
  signed_pre_key_id = 0;
  base_key = public_of 0;
  identity_key = public_of 0;
  message = no_signal;
  serialized = [];
}

abbrev arrival : PreKeySignalMessage
arrival = arrival_of (message_of first_sent)

abbrev receiver_stores : Stores
unfolding PreKey.new SignedPreKey.new
receiver_stores = record {
  session_store = [];
  identity_store = record {
    key_pair = record { identity_key = public_of 3; private_key = key_of 3 };
    id = 11;
    known_keys = [];
  };
  pre_key_store =
      (8, PreKey.new 8 (record { public_key = public_of 5; private_key = key_of 5 })) ∷ [];
  signed_pre_key_store =
      (9, SignedPreKey.new 9 0 (record { public_key = public_of 4; private_key = key_of 4 }) [])
      ∷ [];
  csprng = 5;
}

abbrev arrived : Result Bytes × Stores
arrived = message_decrypt_prekey arrival home receiver_stores

arrived_made : arrived ≡ (ok hello, arrived.1)
unfolding libsignal_client.Common.Assoc.get libsignal_client.Common.Bytes.ascii
    libsignal_client.Common.Bytes.bytes_eq libsignal_client.Common.slice
    libsignal_client.Crypto.aes_256_cbc_decrypt libsignal_client.Crypto.aes_256_cbc_encrypt
    libsignal_client.Crypto.hmac_sha256 libsignal_client.Curve.KeyPair.from_public_and_private
    libsignal_client.Curve.KeyPair.generate libsignal_client.Curve.PrivateKey.calculate_agreement
    libsignal_client.Curve.PrivateKey.deserialize libsignal_client.Curve.PrivateKey.public_key
    libsignal_client.Curve.PrivateKey.serialize libsignal_client.Curve.PublicKey.deserialize
    libsignal_client.Curve.PublicKey.serialize libsignal_client.Examples.Sessions.key_of
    libsignal_client.Examples.ToyPrimitives.pad libsignal_client.Examples.ToyPrimitives.toy
    libsignal_client.Examples.ToyPrimitives.unpad libsignal_client.Kdf.derive_salted_secrets
    libsignal_client.Kdf.derive_secrets libsignal_client.Kdf.expand libsignal_client.Kdf.expand_loop
    libsignal_client.Kdf.extract libsignal_client.Kdf.last_block libsignal_client.Kdf.new
    libsignal_client.Protocol.PreKeySignalMessage.new
    libsignal_client.Protocol.SignalMessage.compute_mac
    libsignal_client.Protocol.SignalMessage.covered libsignal_client.Protocol.SignalMessage.new
    libsignal_client.Protocol.SignalMessage.verify_mac
    libsignal_client.Ratchet.ChainKey.calculate_base_material
    libsignal_client.Ratchet.ChainKey.message_keys libsignal_client.Ratchet.ChainKey.new
    libsignal_client.Ratchet.MessageKeys.derive_keys libsignal_client.Ratchet.RootKey.create_chain
    libsignal_client.Ratchet.RootKey.new libsignal_client.Ratchet.Setup.initialize_alice_session
    libsignal_client.Ratchet.Setup.initialize_bob_session
    libsignal_client.Session.Process.process_prekey
    libsignal_client.SessionCipher.Decrypt.check_session
    libsignal_client.SessionCipher.Decrypt.decrypt_message_with_record
    libsignal_client.SessionCipher.Decrypt.decrypt_message_with_state
    libsignal_client.SessionCipher.Decrypt.open_message
    libsignal_client.SessionCipher.Encrypt.encrypt_with_state
    libsignal_client.SessionCipher.Keys.create_chain_key
    libsignal_client.SessionCipher.Keys.fill_message_keys
    libsignal_client.SessionCipher.Keys.get_or_create_chain_key
    libsignal_client.SessionCipher.Keys.get_or_create_message_key
    libsignal_client.SessionCipher.Messages.message_decrypt_prekey
    libsignal_client.State.PreKey.key_pair libsignal_client.State.PreKey.new
    libsignal_client.State.Record.has_session_state libsignal_client.State.Record.new_fresh
    libsignal_client.State.Record.promote_state libsignal_client.State.Record.session_state
    libsignal_client.State.Session.add_receiver_chain libsignal_client.State.Session.find_chain
    libsignal_client.State.Session.get_receiver_chain_key
    libsignal_client.State.Session.get_sender_chain_key
    libsignal_client.State.Session.has_sender_chain
    libsignal_client.State.Session.local_identity_key libsignal_client.State.Session.push_chain
    libsignal_client.State.Session.remote_identity_key libsignal_client.State.Session.root_key
    libsignal_client.State.Session.sender_ratchet_key
    libsignal_client.State.Session.sender_ratchet_private_key
    libsignal_client.State.Session.set_alice_base_key
    libsignal_client.State.Session.set_local_registration_id
    libsignal_client.State.Session.set_previous_counter
    libsignal_client.State.Session.set_receiver_chain_key
    libsignal_client.State.Session.set_remote_registration_id
    libsignal_client.State.Session.set_root_key libsignal_client.State.Session.set_sender_chain
    libsignal_client.State.Session.set_unacknowledged_pre_key_message
    libsignal_client.State.Session.unacknowledged_pre_key_message_items
    libsignal_client.State.SignedPreKey.key_pair libsignal_client.State.SignedPreKey.new
    libsignal_client.Storage.get_pre_key libsignal_client.Storage.get_signed_pre_key
    libsignal_client.Storage.is_trusted_identity libsignal_client.Storage.load_session
arrived_made = refl

named : arrival.pre_key_id ≡ some 8
unfolding libsignal_client.Common.Bytes.ascii libsignal_client.Common.slice
    libsignal_client.Crypto.aes_256_cbc_encrypt libsignal_client.Crypto.hmac_sha256
    libsignal_client.Curve.KeyPair.generate libsignal_client.Curve.PrivateKey.calculate_agreement
    libsignal_client.Curve.PrivateKey.public_key libsignal_client.Curve.PublicKey.deserialize
    libsignal_client.Curve.PublicKey.serialize libsignal_client.Examples.ToyPrimitives.toy
    libsignal_client.Kdf.derive_salted_secrets libsignal_client.Kdf.derive_secrets
    libsignal_client.Kdf.expand libsignal_client.Kdf.expand_loop libsignal_client.Kdf.extract
    libsignal_client.Kdf.last_block libsignal_client.Kdf.new
    libsignal_client.Protocol.PreKeySignalMessage.new
    libsignal_client.Protocol.SignalMessage.compute_mac libsignal_client.Protocol.SignalMessage.new
    libsignal_client.Ratchet.ChainKey.calculate_base_material
    libsignal_client.Ratchet.ChainKey.message_keys libsignal_client.Ratchet.ChainKey.new
    libsignal_client.Ratchet.MessageKeys.derive_keys libsignal_client.Ratchet.RootKey.create_chain
    libsignal_client.Ratchet.RootKey.new libsignal_client.Ratchet.Setup.initialize_alice_session
    libsignal_client.SessionCipher.Encrypt.encrypt_with_state
    libsignal_client.State.Session.add_receiver_chain
    libsignal_client.State.Session.get_sender_chain_key
    libsignal_client.State.Session.local_identity_key
    libsignal_client.State.Session.remote_identity_key
    libsignal_client.State.Session.sender_ratchet_key
    libsignal_client.State.Session.set_alice_base_key
    libsignal_client.State.Session.set_local_registration_id
    libsignal_client.State.Session.set_remote_registration_id
    libsignal_client.State.Session.set_sender_chain
    libsignal_client.State.Session.set_unacknowledged_pre_key_message
    libsignal_client.State.Session.unacknowledged_pre_key_message_items
named = refl

fresh :
    has_session_state arrival.message_version
      (PublicKey.serialize arrival.base_key)
      (or_fresh (load_session home receiver_stores.session_store))
    ≡ false
unfolding libsignal_client.Common.Assoc.get libsignal_client.State.PreKey.new
    libsignal_client.State.Record.has_session_state libsignal_client.State.Record.new_fresh
    libsignal_client.State.SignedPreKey.new libsignal_client.Storage.load_session
fresh = refl

message_decrypt_prekey-spent_example :
    (get_pre_key 8 arrived.1.pre_key_store ≡ err invalid_pre_key_id)
    × (r : SessionRecord) × (load_session home arrived.1.session_store ≡ some r)
message_decrypt_prekey-spent_example =
    message_decrypt_prekey-spent arrival home 8 receiver_stores arrived.1 hello named fresh
      arrived_made
