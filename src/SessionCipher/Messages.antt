-- ===== src/SessionCipher/Messages.antt =====
-- `message_encrypt`, `message_decrypt` and what they call, of
-- rust/protocol/src/session_cipher.rs, over the stores in memory.
pub mod Untouched
pub mod Spent
use libsignal_client.Common.{ℕ, Bool, Option, none, some}
use libsignal_client.Common.Bytes.{Bytes}
use libsignal_client.Address.{ProtocolAddress}
use libsignal_client.Error.{
  Result, ok, err, map_ok, ok_or, invalid_argument, invalid_session_structure, session_not_found,
  untrusted_identity,
}
use libsignal_client.Exec.{Exec, pure, raise, lift, query, gets, modify, ensure, ◌>>=◌, ◌>>◌}
use libsignal_client.Primitives.{Primitives}
use libsignal_client.Curve.PublicKey.{PublicKey}
use libsignal_client.Protocol.Wire.{Codec}
use libsignal_client.Protocol.SignalMessage.{SignalMessage}
use libsignal_client.Protocol.PreKeySignalMessage.{PreKeySignalMessage}
use libsignal_client.Protocol.Ciphertext.{
  CiphertextMessage, signal_message, pre_key_signal_message, sender_key_message,
  sender_key_distribution_message,
}
use libsignal_client.Session.Process.{or_fresh, save, process_prekey}
use libsignal_client.SessionCipher.Encrypt.{encrypt_with_state}
use libsignal_client.SessionCipher.Decrypt.{Opened, decrypt_message_with_record}
use libsignal_client.State.Session.{SessionState, remote_identity_key, session_version}
use libsignal_client.State.Record.{SessionRecord, session_state, set_session_state}
use libsignal_client.Storage.{
  Direction, sending, receiving, is_trusted_identity, load_session, store_session, remove_pre_key,
}
use libsignal_client.Storage.Stores.{Stores, Loaded}

abbrev pub load : ProtocolAddress → Exec Stores SessionRecord
load remote_address =
    query (λ (s : Stores). ok_or (load_session remote_address s.session_store) session_not_found)

abbrev pub store : ProtocolAddress → SessionRecord → Exec Stores (Unit {0})
store remote_address r =
    modify
      (λ (s : Stores). record s { session_store = store_session remote_address r s.session_store })

-- The test of the identity and, past it, the write of it.
abbrev pub trust_and_save :
    ⦃p : Primitives⦄ → ProtocolAddress → PublicKey → Direction → Exec Stores (Unit {0})
trust_and_save remote_address their_identity_key direction = do
  trusted ← gets (λ (s : Stores).
      is_trusted_identity remote_address their_identity_key direction s.identity_store)
  ensure trusted (untrusted_identity remote_address)
  modify (save remote_address their_identity_key)

-- `remote_registration_id` and `session_version`, which read a stored session.
unfoldable pub remote_registration_id : ProtocolAddress → Exec Stores ℕ
remote_registration_id remote_address = do
  r ← load remote_address
  s ← lift (session_state r)
  pure s.remote_registration_id

unfoldable pub stored_session_version : ProtocolAddress → Exec Stores ℕ
stored_session_version remote_address = do
  r ← load remote_address
  s ← lift (session_state r)
  pure (session_version s)

abbrev their_identity : SessionRecord → Exec Stores PublicKey
their_identity r = do
  s ← lift (session_state r)
  remote ← lift (remote_identity_key s)
  lift (ok_or remote invalid_session_structure)

module _ ⦃p : Primitives⦄ where
  -- A loaded record is decrypted with; the generator is the one of the stores.
  abbrev pub with_record : SignalMessage → SessionRecord → Exec Stores (Bytes × SessionRecord)
  with_record ciphertext r s =
      let (result, o) =
        decrypt_message_with_record ciphertext (record { sessions = r; csprng = s.csprng }) in
      (map_ok (λ ptext. (ptext, o.sessions)) result, record s { csprng = o.csprng })

  unfoldable pub message_decrypt_signal : SignalMessage → ProtocolAddress → Exec Stores Bytes
  message_decrypt_signal ciphertext remote_address = do
    r ← load remote_address
    (ptext, r') ← with_record ciphertext r
    their_identity_key ← their_identity r'
    trust_and_save remote_address their_identity_key receiving
    store remote_address r'
    pure ptext

  -- `process_prekey` on the loaded record.
  abbrev pub process :
      PreKeySignalMessage → ProtocolAddress → SessionRecord → Exec Stores (Option ℕ × SessionRecord)
  process ciphertext remote_address r s =
      let (result, l) =
        process_prekey ciphertext remote_address (record { stores = s; session_record = r }) in
      (map_ok (λ id. (id, l.session_record)) result, l.stores)

  abbrev pub remove_used : Option ℕ → Stores → Stores
  remove_used none s = s
  remove_used (some id) s = record s { pre_key_store = remove_pre_key id s.pre_key_store }

  unfoldable pub message_decrypt_prekey : PreKeySignalMessage → ProtocolAddress → Exec Stores Bytes
  message_decrypt_prekey ciphertext remote_address = do
    loaded ← gets (λ (s : Stores). load_session remote_address s.session_store)
    (pre_key_id, r) ← process ciphertext remote_address (or_fresh loaded)
    (ptext, r') ← with_record ciphertext.message r
    store remote_address r'
    modify (remove_used pre_key_id)
    pure ptext

  unfoldable pub message_decrypt : CiphertextMessage → ProtocolAddress → Exec Stores Bytes
  unfolding message_decrypt_signal message_decrypt_prekey
  message_decrypt (signal_message m) remote_address = message_decrypt_signal m remote_address
  message_decrypt (pre_key_signal_message m) remote_address =
      message_decrypt_prekey m remote_address
  message_decrypt (sender_key_message m) remote_address =
      raise (invalid_argument "SessionCipher::decrypt cannot decrypt this message type")
  message_decrypt (sender_key_distribution_message m) remote_address =
      raise (invalid_argument "SessionCipher::decrypt cannot decrypt this message type")

  unfoldable pub message_encrypt :
      ⦃c : Codec⦄ → Bytes → ProtocolAddress → Exec Stores CiphertextMessage
  message_encrypt ptext remote_address = do
    r ← load remote_address
    state ← lift (session_state r)
    (message, state', their_identity_key) ← lift (encrypt_with_state ptext state)
    trust_and_save remote_address their_identity_key sending
    store remote_address (set_session_state state' r)
    pure message
