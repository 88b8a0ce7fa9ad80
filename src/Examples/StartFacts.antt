-- ===== src/Examples/StartFacts.antt =====
-- What the examples of starts and stores compute to.
use libsignal_client.Common.{ℕ, ◌≡◌, refl, Option, none, some, List, [], ◌∷◌, length}
use libsignal_client.Error.{
  ok, err, untrusted_identity, signature_validation_failed, ciphertext_message_too_short,
}
use libsignal_client.Examples.ToyPrimitives.{toy}
use libsignal_client.Examples.ToyCodec.{toy_codec}
use libsignal_client.Examples.Sessions.{
  key_of, public_of, hello, message_of, signal_of, state_of, home, signal,
}
use libsignal_client.Examples.Starts.{
  alice_0, bob_0, first_sent, late, refused, processed, rejected, group_chain, group_sender,
  group_receiver, group_sent, bytes_of, record_of, group_name, group_stores, group_garbled, made,
  made_of,
}
use libsignal_client.Curve.PublicKey.{IsKey}
use libsignal_client.Curve.PrivateKey.{PrivateKey, public_key}
use libsignal_client.Kdf
use libsignal_client.Ratchet.Setup.{initialize_alice_session, initialize_bob_session}
use libsignal_client.Ratchet.Setup.Agree.{alice, bob}
use libsignal_client.Protocol.SignalMessage
use libsignal_client.SessionCipher.Encrypt.Sent.{carried}
use libsignal_client.Group.SenderKeys.{
  new_state, sender_chain_key, signing_key_private, signing_key_public,
}
use libsignal_client.Group.Record.{sender_key_state, sender_key_state_for_keyid}
use libsignal_client.Group.Skip.{advance}
use libsignal_client.Group.Deliver.{InStep}
use libsignal_client.Group.Store.{group_decrypt}

pub alice_0_made :
    (initialize_alice_session
      (alice (key_of 1) (key_of 2) (key_of 3) (key_of 4) (some (key_of 5)))
      7).0
    ≡ ok alice_0
unfolding libsignal_client.Common.Bytes.ascii libsignal_client.Common.slice
    libsignal_client.Examples.ToyPrimitives.toy libsignal_client.Kdf.derive_salted_secrets
    libsignal_client.Kdf.derive_secrets libsignal_client.Kdf.expand libsignal_client.Kdf.expand_loop
    libsignal_client.Kdf.extract libsignal_client.Kdf.last_block libsignal_client.Kdf.new
    libsignal_client.Ratchet.ChainKey.new libsignal_client.Ratchet.RootKey.new
    libsignal_client.Ratchet.Setup.initialize_alice_session
alice_0_made = refl

pub bob_0_made :
    initialize_bob_session (bob (key_of 1) (key_of 2) (key_of 3) (key_of 4) (some (key_of 5)))
    ≡ ok bob_0
unfolding libsignal_client.Common.Bytes.ascii libsignal_client.Common.slice
    libsignal_client.Examples.ToyPrimitives.toy libsignal_client.Kdf.derive_salted_secrets
    libsignal_client.Kdf.derive_secrets libsignal_client.Kdf.expand libsignal_client.Kdf.expand_loop
    libsignal_client.Kdf.extract libsignal_client.Kdf.last_block libsignal_client.Kdf.new
    libsignal_client.Ratchet.ChainKey.new libsignal_client.Ratchet.RootKey.new
    libsignal_client.Ratchet.Setup.initialize_bob_session
bob_0_made = refl

pub key_sized : length (key_of 4).key ≡ 32
unfolding libsignal_client.Examples.Sessions.key_of
key_sized = refl

pub signing_sized : length (key_of 9).key ≡ 32
unfolding libsignal_client.Examples.Sessions.key_of
signing_sized = refl

pub public_sized : IsKey (public_of 9)
unfolding libsignal_client.Curve.PrivateKey.public_key libsignal_client.Examples.ToyPrimitives.toy
public_sized = refl

pub first_made : first_sent ≡ ok (message_of first_sent, state_of first_sent, public_of 3)
unfolding libsignal_client.Common.Bytes.ascii libsignal_client.Common.slice
    libsignal_client.Crypto.aes_256_cbc_encrypt libsignal_client.Crypto.hmac_sha256
    libsignal_client.Curve.KeyPair.generate libsignal_client.Curve.PrivateKey.calculate_agreement
    libsignal_client.Curve.PrivateKey.public_key libsignal_client.Curve.PublicKey.deserialize
    libsignal_client.Curve.PublicKey.serialize libsignal_client.Examples.ToyPrimitives.toy
    libsignal_client.Kdf.derive_salted_secrets libsignal_client.Kdf.derive_secrets
    libsignal_client.Kdf.expand libsignal_client.Kdf.expand_loop libsignal_client.Kdf.extract
    libsignal_client.Kdf.last_block libsignal_client.Kdf.new
    libsignal_client.Protocol.SignalMessage.compute_mac libsignal_client.Protocol.SignalMessage.new
    libsignal_client.Ratchet.ChainKey.calculate_base_material
    libsignal_client.Ratchet.ChainKey.message_keys libsignal_client.Ratchet.ChainKey.new
    libsignal_client.Ratchet.MessageKeys.derive_keys libsignal_client.Ratchet.RootKey.create_chain
    libsignal_client.Ratchet.RootKey.new libsignal_client.Ratchet.Setup.initialize_alice_session
    libsignal_client.SessionCipher.Encrypt.encrypt_with_state
    libsignal_client.State.Session.add_receiver_chain
    libsignal_client.State.Session.get_sender_chain_key
    libsignal_client.State.Session.local_identity_key
    libsignal_client.State.Session.remote_identity_key
    libsignal_client.State.Session.sender_ratchet_key
    libsignal_client.State.Session.set_alice_base_key
    libsignal_client.State.Session.set_local_registration_id
    libsignal_client.State.Session.set_remote_registration_id
    libsignal_client.State.Session.set_sender_chain
    libsignal_client.State.Session.set_unacknowledged_pre_key_message
    libsignal_client.State.Session.unacknowledged_pre_key_message_items
first_made = refl

pub first_carries : carried (message_of first_sent) ≡ some (signal_of (message_of first_sent))
unfolding libsignal_client.Common.Bytes.ascii libsignal_client.Common.slice
    libsignal_client.Crypto.aes_256_cbc_encrypt libsignal_client.Crypto.hmac_sha256
    libsignal_client.Curve.KeyPair.generate libsignal_client.Curve.PrivateKey.calculate_agreement
    libsignal_client.Curve.PrivateKey.public_key libsignal_client.Curve.PublicKey.deserialize
    libsignal_client.Curve.PublicKey.serialize libsignal_client.Examples.ToyPrimitives.toy
    libsignal_client.Kdf.derive_salted_secrets libsignal_client.Kdf.derive_secrets
    libsignal_client.Kdf.expand libsignal_client.Kdf.expand_loop libsignal_client.Kdf.extract
    libsignal_client.Kdf.last_block libsignal_client.Kdf.new
    libsignal_client.Protocol.SignalMessage.compute_mac libsignal_client.Protocol.SignalMessage.new
    libsignal_client.Ratchet.ChainKey.calculate_base_material
    libsignal_client.Ratchet.ChainKey.message_keys libsignal_client.Ratchet.ChainKey.new
    libsignal_client.Ratchet.MessageKeys.derive_keys libsignal_client.Ratchet.RootKey.create_chain
    libsignal_client.Ratchet.RootKey.new libsignal_client.Ratchet.Setup.initialize_alice_session
    libsignal_client.SessionCipher.Encrypt.encrypt_with_state
    libsignal_client.State.Session.add_receiver_chain
    libsignal_client.State.Session.get_sender_chain_key
    libsignal_client.State.Session.local_identity_key
    libsignal_client.State.Session.remote_identity_key
    libsignal_client.State.Session.sender_ratchet_key
    libsignal_client.State.Session.set_alice_base_key
    libsignal_client.State.Session.set_local_registration_id
    libsignal_client.State.Session.set_remote_registration_id
    libsignal_client.State.Session.set_sender_chain
    libsignal_client.State.Session.set_unacknowledged_pre_key_message
    libsignal_client.State.Session.unacknowledged_pre_key_message_items
first_carries = refl

pub late_made : late ≡ (err (untrusted_identity home), late.1)
unfolding libsignal_client.Address.address_eq libsignal_client.Common.Assoc.get
    libsignal_client.Common.Bytes.ascii libsignal_client.Common.Bytes.bytes_eq
    libsignal_client.Common.slice libsignal_client.Crypto.aes_256_cbc_decrypt
    libsignal_client.Crypto.aes_256_cbc_encrypt libsignal_client.Crypto.hmac_sha256
    libsignal_client.Curve.PrivateKey.public_key libsignal_client.Curve.PublicKey.deserialize
    libsignal_client.Curve.PublicKey.public_key_eq libsignal_client.Curve.PublicKey.serialize
    libsignal_client.Examples.Sessions.key_of libsignal_client.Examples.ToyPrimitives.pad
    libsignal_client.Examples.ToyPrimitives.toy libsignal_client.Examples.ToyPrimitives.unpad
    libsignal_client.Kdf.derive_salted_secrets libsignal_client.Kdf.derive_secrets
    libsignal_client.Kdf.expand libsignal_client.Kdf.expand_loop libsignal_client.Kdf.extract
    libsignal_client.Kdf.last_block libsignal_client.Kdf.new
    libsignal_client.Protocol.SignalMessage.compute_mac
    libsignal_client.Protocol.SignalMessage.covered libsignal_client.Protocol.SignalMessage.new
    libsignal_client.Protocol.SignalMessage.verify_mac
    libsignal_client.Ratchet.ChainKey.calculate_base_material
    libsignal_client.Ratchet.ChainKey.message_keys libsignal_client.Ratchet.ChainKey.new
    libsignal_client.Ratchet.MessageKeys.derive_keys
    libsignal_client.SessionCipher.Decrypt.check_session
    libsignal_client.SessionCipher.Decrypt.decrypt_message_with_record
    libsignal_client.SessionCipher.Decrypt.decrypt_message_with_state
    libsignal_client.SessionCipher.Decrypt.open_message
    libsignal_client.SessionCipher.Encrypt.encrypt_with_state
    libsignal_client.SessionCipher.Keys.fill_message_keys
    libsignal_client.SessionCipher.Keys.get_or_create_chain_key
    libsignal_client.SessionCipher.Keys.get_or_create_message_key
    libsignal_client.SessionCipher.Messages.message_decrypt
    libsignal_client.State.Record.session_state libsignal_client.State.Record.set_session_state
    libsignal_client.State.Session.clear_unacknowledged_pre_key_message
    libsignal_client.State.Session.find_chain libsignal_client.State.Session.get_receiver_chain_key
    libsignal_client.State.Session.get_sender_chain_key
    libsignal_client.State.Session.has_sender_chain
    libsignal_client.State.Session.local_identity_key
    libsignal_client.State.Session.remote_identity_key
    libsignal_client.State.Session.sender_ratchet_key
    libsignal_client.State.Session.set_receiver_chain_key
    libsignal_client.State.Session.unacknowledged_pre_key_message_items
    libsignal_client.Storage.is_trusted_identity libsignal_client.Storage.load_session
late_made = refl

pub refused_made : refused ≡ (err (untrusted_identity home), refused.1)
unfolding libsignal_client.Address.address_eq libsignal_client.Common.Assoc.get
    libsignal_client.Common.Bytes.ascii libsignal_client.Common.Bytes.bytes_eq
    libsignal_client.Common.slice libsignal_client.Crypto.aes_256_cbc_encrypt
    libsignal_client.Crypto.hmac_sha256 libsignal_client.Curve.PrivateKey.public_key
    libsignal_client.Curve.PublicKey.deserialize libsignal_client.Curve.PublicKey.public_key_eq
    libsignal_client.Curve.PublicKey.serialize libsignal_client.Examples.Sessions.key_of
    libsignal_client.Examples.ToyPrimitives.toy libsignal_client.Kdf.derive_salted_secrets
    libsignal_client.Kdf.derive_secrets libsignal_client.Kdf.expand libsignal_client.Kdf.expand_loop
    libsignal_client.Kdf.extract libsignal_client.Kdf.last_block libsignal_client.Kdf.new
    libsignal_client.Protocol.SignalMessage.compute_mac libsignal_client.Protocol.SignalMessage.new
    libsignal_client.Ratchet.ChainKey.calculate_base_material
    libsignal_client.Ratchet.ChainKey.message_keys libsignal_client.Ratchet.ChainKey.new
    libsignal_client.Ratchet.MessageKeys.derive_keys
    libsignal_client.SessionCipher.Encrypt.encrypt_with_state
    libsignal_client.SessionCipher.Messages.message_encrypt
    libsignal_client.State.Record.session_state libsignal_client.State.Session.get_sender_chain_key
    libsignal_client.State.Session.local_identity_key
    libsignal_client.State.Session.remote_identity_key
    libsignal_client.State.Session.sender_ratchet_key
    libsignal_client.State.Session.unacknowledged_pre_key_message_items
    libsignal_client.Storage.is_trusted_identity libsignal_client.Storage.load_session
refused_made = refl

pub processed_made : processed ≡ (ok tt, processed.1)
unfolding libsignal_client.Address.address_eq libsignal_client.Common.Assoc.get
    libsignal_client.Common.Bytes.ascii libsignal_client.Common.Bytes.bytes_eq
    libsignal_client.Common.slice libsignal_client.Curve.PrivateKey.public_key
    libsignal_client.Curve.PublicKey.public_key_eq libsignal_client.Curve.PublicKey.serialize
    libsignal_client.Curve.PublicKey.verify_signature libsignal_client.Examples.Sessions.key_of
    libsignal_client.Examples.ToyPrimitives.toy libsignal_client.Kdf.derive_salted_secrets
    libsignal_client.Kdf.derive_secrets libsignal_client.Kdf.expand libsignal_client.Kdf.expand_loop
    libsignal_client.Kdf.extract libsignal_client.Kdf.last_block libsignal_client.Kdf.new
    libsignal_client.Ratchet.ChainKey.new libsignal_client.Ratchet.RootKey.new
    libsignal_client.Ratchet.Setup.initialize_alice_session
    libsignal_client.Session.Process.process_prekey_bundle
    libsignal_client.Storage.is_trusted_identity
processed_made = refl

pub rejected_made : rejected ≡ (err signature_validation_failed, rejected.1)
unfolding libsignal_client.Address.address_eq libsignal_client.Common.Assoc.get
    libsignal_client.Common.Bytes.bytes_eq libsignal_client.Curve.PrivateKey.public_key
    libsignal_client.Curve.PublicKey.public_key_eq libsignal_client.Curve.PublicKey.serialize
    libsignal_client.Curve.PublicKey.verify_signature libsignal_client.Examples.Sessions.key_of
    libsignal_client.Examples.ToyPrimitives.toy
    libsignal_client.Session.Process.process_prekey_bundle
    libsignal_client.Storage.is_trusted_identity
rejected_made = refl

pub first_is :
    sender_key_state group_sender
    ≡ ok (new_state 6 0 (key_of 7).key (public_of 9) (some (key_of 9)))
unfolding libsignal_client.Group.Record.sender_key_state
first_is = refl

pub chain_s_is :
    sender_chain_key (new_state 6 0 (key_of 7).key (public_of 9) (some (key_of 9)))
    ≡ ok (advance 0 group_chain)
unfolding libsignal_client.Group.SenderKeys.new_state
    libsignal_client.Group.SenderKeys.sender_chain_key libsignal_client.Group.Skip.advance
chain_s_is = refl

pub private_is :
    signing_key_private (new_state 6 0 (key_of 7).key (public_of 9) (some (key_of 9)))
    ≡ ok (some (key_of 9))
unfolding libsignal_client.Curve.PrivateKey.deserialize libsignal_client.Examples.Sessions.key_of
    libsignal_client.Group.SenderKeys.new_state
    libsignal_client.Group.SenderKeys.signing_key_private
private_is = refl

pub found_is :
    sender_key_state_for_keyid
      (new_state 6 0 (key_of 7).key (public_of 9) (some (key_of 9))).sender_key_id
      group_receiver
    ≡ ok (new_state 6 0 (key_of 7).key (public_of 9) none, 0)
unfolding libsignal_client.Group.Record.sender_key_state_for_keyid
    libsignal_client.Group.SenderKeys.new_state
found_is = refl

pub chain_r_is : sender_chain_key (new_state 6 0 (key_of 7).key (public_of 9) none) ≡ ok group_chain
unfolding libsignal_client.Group.SenderKeys.new_state
    libsignal_client.Group.SenderKeys.sender_chain_key
chain_r_is = refl

pub public_is :
    signing_key_public (new_state 6 0 (key_of 7).key (public_of 9) none)
    ≡ ok (public_key (key_of 9))
unfolding libsignal_client.Curve.PrivateKey.public_key libsignal_client.Curve.PublicKey.deserialize
    libsignal_client.Curve.PublicKey.serialize libsignal_client.Examples.ToyPrimitives.toy
    libsignal_client.Group.SenderKeys.new_state libsignal_client.Group.SenderKeys.signing_key_public
public_is = refl

abbrev pub group_step : InStep 0 group_sender group_receiver
group_step = record {
  key = group_chain;
  state_s = new_state 6 0 (key_of 7).key (public_of 9) (some (key_of 9));
  state_r = new_state 6 0 (key_of 7).key (public_of 9) none;
  place = 0;
  signing_key = key_of 9;
  first = first_is;
  chain_s = chain_s_is;
  private_s = private_is;
  found = found_is;
  chain_r = chain_r_is;
  public_r = public_is;
}

pub group_made : group_sent ≡ (ok (bytes_of group_sent.0, record_of group_sent.0), 6)
unfolding libsignal_client.Common.Bytes.ascii libsignal_client.Common.slice
    libsignal_client.Crypto.aes_256_cbc_encrypt libsignal_client.Crypto.hmac_sha256
    libsignal_client.Curve.PrivateKey.calculate_signature
    libsignal_client.Curve.PrivateKey.deserialize libsignal_client.Examples.Sessions.key_of
    libsignal_client.Examples.ToyPrimitives.toy libsignal_client.Group.Cipher.encrypt_with_record
    libsignal_client.Group.Record.sender_key_state libsignal_client.Group.SenderKeys.new_state
    libsignal_client.Group.SenderKeys.sender_chain_key
    libsignal_client.Group.SenderKeys.sender_message_key
    libsignal_client.Group.SenderKeys.signing_key_private libsignal_client.Kdf.derive_salted_secrets
    libsignal_client.Kdf.derive_secrets libsignal_client.Kdf.expand libsignal_client.Kdf.expand_loop
    libsignal_client.Kdf.extract libsignal_client.Kdf.last_block
    libsignal_client.Protocol.SenderKeyMessage.new
group_made = refl

pub garbled_made :
    group_decrypt group_garbled group_name group_stores
    ≡ (err (ciphertext_message_too_short 2), group_stores)
unfolding libsignal_client.Address.address_eq libsignal_client.Common.Assoc.get
    libsignal_client.Group.Cipher.decrypt_with_record libsignal_client.Group.Record.name_eq
    libsignal_client.Group.Store.group_decrypt libsignal_client.Group.Store.load_sender_key
    libsignal_client.Protocol.SenderKeyMessage.try_from
garbled_made = refl

pub made_is : made ≡ ok (made_of made)
unfolding libsignal_client.Examples.Sessions.key_of
    libsignal_client.Protocol.SignalMessage.compute_mac libsignal_client.Protocol.SignalMessage.new
made_is = refl

pub kdf_is : Kdf.new 3 ≡ ok (record { iteration_start_offset = 1 })
unfolding libsignal_client.Kdf.new
kdf_is = refl
