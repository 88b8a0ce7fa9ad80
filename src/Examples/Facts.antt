-- ===== src/Examples/Facts.antt =====
-- What the example sessions compute to.
use libsignal_client.Common.{
  ℕ, ◌+◌, ◌≤◌, ◌<◌, ◌≡◌, refl, true, Option, none, some, [], ◌∷◌, arith, length,
}
use libsignal_client.Error.{ok}
use libsignal_client.Examples.ToyPrimitives.{toy}
use libsignal_client.Examples.ToyCodec.{toy_codec}
use libsignal_client.Examples.Sessions.{
  key_of, public_of, v3, chain_key, chain_of, sender, receiver, hello, sent, signal, message_of,
  state_of, received, opened, session_record, working,
}
use libsignal_client.Curve.PublicKey.{IsKey}
use libsignal_client.SessionCipher.Encrypt.Sent.{carried}
use libsignal_client.Kdf
use libsignal_client.Ratchet.ChainKey.{u32_mod}
use libsignal_client.State.Session.{
  get_receiver_chain, get_sender_chain_key, sender_ratchet_key, local_identity_key,
  remote_identity_key, session_version, has_sender_chain, store_chain_key,
  unacknowledged_pre_key_message_items,
}
use libsignal_client.State.Record.{RecordWellFormed}
use libsignal_client.SessionCipher.Keys.Replay.{Ready}
use libsignal_client.SessionCipher.Keys.Skip.{advance}
use libsignal_client.SessionCipher.Encrypt.InStep.{InStep}

pub found : get_receiver_chain (public_of 9) receiver ≡ ok (some (chain_of 9 [], 0))
unfolding libsignal_client.Common.Bytes.bytes_eq libsignal_client.Curve.PrivateKey.public_key
    libsignal_client.Curve.PublicKey.deserialize libsignal_client.Curve.PublicKey.serialize
    libsignal_client.Examples.Sessions.key_of libsignal_client.Examples.ToyPrimitives.toy
    libsignal_client.State.Session.find_chain libsignal_client.State.Session.set_receiver_chain_key
found = refl

pub sending : get_sender_chain_key sender ≡ ok (advance 0 chain_key)
unfolding libsignal_client.Examples.Sessions.key_of libsignal_client.Kdf.new
    libsignal_client.Ratchet.ChainKey.new libsignal_client.SessionCipher.Keys.Skip.advance
    libsignal_client.State.Session.get_sender_chain_key
sending = refl

pub ratchet_is : sender_ratchet_key sender ≡ ok (public_of 9)
unfolding libsignal_client.Curve.PrivateKey.public_key libsignal_client.Curve.PublicKey.deserialize
    libsignal_client.Curve.PublicKey.serialize libsignal_client.Examples.ToyPrimitives.toy
    libsignal_client.State.Session.sender_ratchet_key
ratchet_is = refl

pub local_s : local_identity_key sender ≡ ok (public_of 1)
unfolding libsignal_client.Curve.PrivateKey.public_key libsignal_client.Curve.PublicKey.deserialize
    libsignal_client.Curve.PublicKey.serialize libsignal_client.Examples.ToyPrimitives.toy
    libsignal_client.State.Session.local_identity_key
local_s = refl

pub remote_s : remote_identity_key sender ≡ ok (some (public_of 2))
unfolding libsignal_client.Curve.PrivateKey.public_key libsignal_client.Curve.PublicKey.deserialize
    libsignal_client.Curve.PublicKey.serialize libsignal_client.Examples.ToyPrimitives.toy
    libsignal_client.State.Session.remote_identity_key
remote_s = refl

pub local_r : local_identity_key receiver ≡ ok (public_of 2)
unfolding libsignal_client.Curve.PrivateKey.public_key libsignal_client.Curve.PublicKey.deserialize
    libsignal_client.Curve.PublicKey.serialize libsignal_client.Examples.ToyPrimitives.toy
    libsignal_client.State.Session.local_identity_key
local_r = refl

pub remote_r : remote_identity_key receiver ≡ ok (some (public_of 1))
unfolding libsignal_client.Curve.PrivateKey.public_key libsignal_client.Curve.PublicKey.deserialize
    libsignal_client.Curve.PublicKey.serialize libsignal_client.Examples.ToyPrimitives.toy
    libsignal_client.State.Session.remote_identity_key
remote_r = refl

pub version : Kdf.new (session_version receiver) ≡ ok v3
unfolding libsignal_client.Kdf.new libsignal_client.State.Session.session_version
version = refl

pub same_version : session_version sender ≡ session_version receiver
unfolding libsignal_client.State.Session.session_version
same_version = refl

pub sized : length chain_key.key ≡ 32
unfolding libsignal_client.Examples.Sessions.key_of
sized = refl

pub sends : has_sender_chain receiver ≡ true
unfolding libsignal_client.State.Session.has_sender_chain
sends = refl

pub stored : (chain_of 9 []).chain_key ≡ some (store_chain_key chain_key)
unfolding libsignal_client.State.Session.with_chain_key
stored = refl

abbrev pub ready : Ready (public_of 9) chain_key receiver
ready = record {
  chain = chain_of 9 [];
  place = 0;
  found = found;
  stored = stored;
  version = version;
  sized = sized;
  ordered = tt;
  room = omega arith;
}

-- The two sessions are in step.
abbrev pub step : InStep (public_of 9) 0 sender receiver
step = record {
  key = chain_key;
  ready = ready;
  sending = sending;
  ratchet_is = ratchet_is;
  sender = public_of 1;
  receiver = public_of 2;
  local_s = local_s;
  remote_s = remote_s;
  local_r = local_r;
  remote_r = remote_r;
  version = same_version;
  sends = sends;
}

pub sent_made : sent ≡ ok (message_of sent, state_of sent, public_of 2)
unfolding libsignal_client.Common.Bytes.ascii libsignal_client.Common.slice
    libsignal_client.Crypto.aes_256_cbc_encrypt libsignal_client.Crypto.hmac_sha256
    libsignal_client.Curve.PrivateKey.public_key libsignal_client.Curve.PublicKey.deserialize
    libsignal_client.Curve.PublicKey.serialize libsignal_client.Examples.Sessions.key_of
    libsignal_client.Examples.ToyPrimitives.toy libsignal_client.Kdf.derive_salted_secrets
    libsignal_client.Kdf.derive_secrets libsignal_client.Kdf.expand libsignal_client.Kdf.expand_loop
    libsignal_client.Kdf.extract libsignal_client.Kdf.last_block libsignal_client.Kdf.new
    libsignal_client.Protocol.SignalMessage.compute_mac libsignal_client.Protocol.SignalMessage.new
    libsignal_client.Ratchet.ChainKey.calculate_base_material
    libsignal_client.Ratchet.ChainKey.message_keys libsignal_client.Ratchet.ChainKey.new
    libsignal_client.Ratchet.MessageKeys.derive_keys
    libsignal_client.SessionCipher.Encrypt.encrypt_with_state
    libsignal_client.State.Session.get_sender_chain_key
    libsignal_client.State.Session.local_identity_key
    libsignal_client.State.Session.remote_identity_key
    libsignal_client.State.Session.sender_ratchet_key
    libsignal_client.State.Session.unacknowledged_pre_key_message_items
sent_made = refl

pub carries : carried (message_of sent) ≡ some signal
unfolding libsignal_client.Common.Bytes.ascii libsignal_client.Common.slice
    libsignal_client.Crypto.aes_256_cbc_encrypt libsignal_client.Crypto.hmac_sha256
    libsignal_client.Curve.PrivateKey.public_key libsignal_client.Curve.PublicKey.deserialize
    libsignal_client.Curve.PublicKey.serialize libsignal_client.Examples.Sessions.key_of
    libsignal_client.Examples.ToyPrimitives.toy libsignal_client.Kdf.derive_salted_secrets
    libsignal_client.Kdf.derive_secrets libsignal_client.Kdf.expand libsignal_client.Kdf.expand_loop
    libsignal_client.Kdf.extract libsignal_client.Kdf.last_block libsignal_client.Kdf.new
    libsignal_client.Protocol.SignalMessage.compute_mac libsignal_client.Protocol.SignalMessage.new
    libsignal_client.Ratchet.ChainKey.calculate_base_material
    libsignal_client.Ratchet.ChainKey.message_keys libsignal_client.Ratchet.ChainKey.new
    libsignal_client.Ratchet.MessageKeys.derive_keys
    libsignal_client.SessionCipher.Encrypt.encrypt_with_state
    libsignal_client.State.Session.get_sender_chain_key
    libsignal_client.State.Session.local_identity_key
    libsignal_client.State.Session.remote_identity_key
    libsignal_client.State.Session.sender_ratchet_key
    libsignal_client.State.Session.unacknowledged_pre_key_message_items
carries = refl

pub signal_sized : IsKey signal.sender_ratchet_key
unfolding libsignal_client.Common.Bytes.ascii libsignal_client.Common.slice
    libsignal_client.Crypto.aes_256_cbc_encrypt libsignal_client.Crypto.hmac_sha256
    libsignal_client.Curve.PrivateKey.public_key libsignal_client.Curve.PublicKey.deserialize
    libsignal_client.Curve.PublicKey.serialize libsignal_client.Examples.Sessions.key_of
    libsignal_client.Examples.ToyPrimitives.toy libsignal_client.Kdf.derive_salted_secrets
    libsignal_client.Kdf.derive_secrets libsignal_client.Kdf.expand libsignal_client.Kdf.expand_loop
    libsignal_client.Kdf.extract libsignal_client.Kdf.last_block libsignal_client.Kdf.new
    libsignal_client.Protocol.SignalMessage.compute_mac libsignal_client.Protocol.SignalMessage.new
    libsignal_client.Ratchet.ChainKey.calculate_base_material
    libsignal_client.Ratchet.ChainKey.message_keys libsignal_client.Ratchet.ChainKey.new
    libsignal_client.Ratchet.MessageKeys.derive_keys
    libsignal_client.SessionCipher.Encrypt.encrypt_with_state
    libsignal_client.State.Session.get_sender_chain_key
    libsignal_client.State.Session.local_identity_key
    libsignal_client.State.Session.remote_identity_key
    libsignal_client.State.Session.sender_ratchet_key
    libsignal_client.State.Session.unacknowledged_pre_key_message_items
signal_sized = refl

pub counter_is : signal.counter ≡ 3
unfolding libsignal_client.Common.Bytes.ascii libsignal_client.Common.slice
    libsignal_client.Crypto.aes_256_cbc_encrypt libsignal_client.Crypto.hmac_sha256
    libsignal_client.Curve.PrivateKey.public_key libsignal_client.Curve.PublicKey.deserialize
    libsignal_client.Curve.PublicKey.serialize libsignal_client.Examples.Sessions.key_of
    libsignal_client.Examples.ToyPrimitives.toy libsignal_client.Kdf.derive_salted_secrets
    libsignal_client.Kdf.derive_secrets libsignal_client.Kdf.expand libsignal_client.Kdf.expand_loop
    libsignal_client.Kdf.extract libsignal_client.Kdf.last_block libsignal_client.Kdf.new
    libsignal_client.Protocol.SignalMessage.compute_mac libsignal_client.Protocol.SignalMessage.new
    libsignal_client.Ratchet.ChainKey.calculate_base_material
    libsignal_client.Ratchet.ChainKey.message_keys libsignal_client.Ratchet.ChainKey.new
    libsignal_client.Ratchet.MessageKeys.derive_keys
    libsignal_client.SessionCipher.Encrypt.encrypt_with_state
    libsignal_client.State.Session.get_sender_chain_key
    libsignal_client.State.Session.local_identity_key
    libsignal_client.State.Session.remote_identity_key
    libsignal_client.State.Session.sender_ratchet_key
    libsignal_client.State.Session.unacknowledged_pre_key_message_items
counter_is = refl

pub signal_fits : signal.counter + 1 < u32_mod
signal_fits = rw counter_is (omega arith)

pub received_made : received ≡ (ok hello, received.1)
unfolding libsignal_client.Common.Bytes.ascii libsignal_client.Common.Bytes.bytes_eq
    libsignal_client.Common.slice libsignal_client.Crypto.aes_256_cbc_decrypt
    libsignal_client.Crypto.aes_256_cbc_encrypt libsignal_client.Crypto.hmac_sha256
    libsignal_client.Curve.PrivateKey.public_key libsignal_client.Curve.PublicKey.deserialize
    libsignal_client.Curve.PublicKey.serialize libsignal_client.Examples.Sessions.key_of
    libsignal_client.Examples.ToyPrimitives.pad libsignal_client.Examples.ToyPrimitives.toy
    libsignal_client.Examples.ToyPrimitives.unpad libsignal_client.Kdf.derive_salted_secrets
    libsignal_client.Kdf.derive_secrets libsignal_client.Kdf.expand libsignal_client.Kdf.expand_loop
    libsignal_client.Kdf.extract libsignal_client.Kdf.last_block libsignal_client.Kdf.new
    libsignal_client.Protocol.SignalMessage.compute_mac
    libsignal_client.Protocol.SignalMessage.covered libsignal_client.Protocol.SignalMessage.new
    libsignal_client.Protocol.SignalMessage.verify_mac
    libsignal_client.Ratchet.ChainKey.calculate_base_material
    libsignal_client.Ratchet.ChainKey.message_keys libsignal_client.Ratchet.ChainKey.new
    libsignal_client.Ratchet.MessageKeys.derive_keys
    libsignal_client.SessionCipher.Decrypt.check_session
    libsignal_client.SessionCipher.Decrypt.decrypt_message_with_record
    libsignal_client.SessionCipher.Decrypt.decrypt_message_with_state
    libsignal_client.SessionCipher.Decrypt.open_message
    libsignal_client.SessionCipher.Encrypt.encrypt_with_state
    libsignal_client.SessionCipher.Keys.fill_message_keys
    libsignal_client.SessionCipher.Keys.get_or_create_chain_key
    libsignal_client.SessionCipher.Keys.get_or_create_message_key
    libsignal_client.State.Record.session_state libsignal_client.State.Session.find_chain
    libsignal_client.State.Session.get_receiver_chain_key
    libsignal_client.State.Session.get_sender_chain_key
    libsignal_client.State.Session.has_sender_chain
    libsignal_client.State.Session.local_identity_key
    libsignal_client.State.Session.remote_identity_key
    libsignal_client.State.Session.sender_ratchet_key
    libsignal_client.State.Session.set_receiver_chain_key
    libsignal_client.State.Session.unacknowledged_pre_key_message_items
received_made = refl

pub formed : RecordWellFormed session_record
formed = record {
  current = record { few = omega arith; chains = ((tt, omega arith), tt) };
  previous = tt;
  archived = omega arith;
}

pub pending : unacknowledged_pre_key_message_items sender ≡ ok none
unfolding libsignal_client.State.Session.unacknowledged_pre_key_message_items
pending = refl
