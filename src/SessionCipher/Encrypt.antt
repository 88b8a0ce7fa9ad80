-- ===== src/SessionCipher/Encrypt.antt =====
-- The part of `message_encrypt` of rust/protocol/src/session_cipher.rs that works on the session.
pub mod Sent
pub mod InStep
pub mod Stream
pub mod Handshake
use libsignal_client.Common.{ℕ, ◌%◌, Option, none, some}
use libsignal_client.Common.Bytes.{Bytes}
use libsignal_client.Error.{Result, ok, ◌>>=◌, ok_or, invalid_session_structure}
use libsignal_client.Primitives.{Primitives}
use libsignal_client.Crypto.{aes_256_cbc_encrypt}
use libsignal_client.Curve.PublicKey.{PublicKey}
use libsignal_client.Protocol.Wire.{Codec}
use libsignal_client.Protocol.SignalMessage
use libsignal_client.Protocol.SignalMessage.{SignalMessage}
use libsignal_client.Protocol.PreKeySignalMessage
use libsignal_client.Protocol.Ciphertext.{CiphertextMessage, signal_message, pre_key_signal_message}
use libsignal_client.Ratchet.ChainKey.{next_chain_key, message_keys}
use libsignal_client.State.Session.{
  SessionState, UnacknowledgedPreKeyMessageItems, get_sender_chain_key, sender_ratchet_key,
  session_version, local_identity_key, remote_identity_key, unacknowledged_pre_key_message_items,
  set_sender_chain_key,
}

-- The pre-key message while the session is unacknowledged, and the bare message afterwards.
unfoldable pub wrap_message :
    ⦃c : Codec⦄
    → ℕ
    → SessionState
    → PublicKey
    → Option UnacknowledgedPreKeyMessageItems
    → SignalMessage
    → CiphertextMessage
wrap_message version s local_identity none m = signal_message m
wrap_message version s local_identity (some items) m = pre_key_signal_message (
    PreKeySignalMessage.new version s.local_registration_id items.pre_key_id items.signed_pre_key_id
      items.base_key local_identity m)

-- The message, the new state and the identity key of the receiver.
unfoldable pub encrypt_with_state :
    ⦃p : Primitives⦄
    → ⦃c : Codec⦄ → Bytes
    → SessionState
    → Result (CiphertextMessage × SessionState × PublicKey)
unfolding wrap_message
encrypt_with_state ptext s = do
  chain_key ← get_sender_chain_key s
  let keys = message_keys chain_key
  sender_ephemeral ← sender_ratchet_key s
  let version = session_version s % 256
  local_identity ← local_identity_key s
  remote ← remote_identity_key s
  their_identity ← ok_or remote invalid_session_structure
  ctext ← aes_256_cbc_encrypt ptext keys.cipher_key keys.iv
  items ← unacknowledged_pre_key_message_items s
  message ←
      SignalMessage.new version keys.mac_key sender_ephemeral chain_key.index s.previous_counter
        ctext local_identity their_identity
  ok (
    wrap_message version s local_identity items message,
    set_sender_chain_key (next_chain_key chain_key) s,
    their_identity,
  )
