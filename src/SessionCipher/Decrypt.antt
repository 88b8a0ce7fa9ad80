-- ===== src/SessionCipher/Decrypt.antt =====
-- `decrypt_message_with_state` and `decrypt_message_with_record` of
-- rust/protocol/src/session_cipher.rs.
pub mod Duplicate
pub mod Record
pub mod Steps
use libsignal_client.Common.{
  ℕ, zero, suc, Bool, true, false, Option, none, some, List, [], ◌∷◌, ◌==◌, not, if◌then◌else◌,
}
use libsignal_client.Common.Bytes.{Bytes}
use libsignal_client.Error.{
  SignalProtocolError, Result, ok, err, ok_or, invalid_session_structure,
  unrecognized_message_version, invalid_ciphertext, duplicated_message, invalid_message,
}
use libsignal_client.Exec.{
  ensure, Exec, pure, raise, lift, query, gets, modify, update, change, ◌>>=◌, ◌>>◌,
}
use libsignal_client.Primitives.{Primitives}
use libsignal_client.Crypto.{aes_256_cbc_decrypt}
use libsignal_client.Curve.PublicKey.{PublicKey}
use libsignal_client.Protocol.SignalMessage.{SignalMessage, verify_mac}
use libsignal_client.State.Session.{
  SessionState, has_sender_chain, session_version, remote_identity_key, local_identity_key,
  clear_unacknowledged_pre_key_message,
}
use libsignal_client.State.Record.{
  SessionRecord, session_state, set_session_state, promote_old_session,
}
use libsignal_client.Ratchet.MessageKeys.{MessageKeys}
use libsignal_client.SessionCipher.Keys.{
  Working, on_state, get_or_create_chain_key, get_or_create_message_key,
}

-- A record that is being decrypted with, and the generator.
pub record Opened : Type 0 where
  pub sessions : SessionRecord
  pub csprng : ℕ

module _ ⦃p : Primitives⦄ where
  -- The tests before any key is looked at.
  unfoldable pub check_session : SignalMessage → Exec SessionState (Unit {0})
  check_session ciphertext = do
    has ← gets has_sender_chain
    ensure has invalid_session_structure
    version ← gets session_version
    ensure (ciphertext.message_version == version)
        (unrecognized_message_version ciphertext.message_version)

  -- The tests and the decryption once the message keys are known.
  unfoldable pub open_message : SignalMessage → MessageKeys → Exec SessionState Bytes
  open_message ciphertext keys = do
    remote ← query remote_identity_key
    their_identity_key ← lift (ok_or remote invalid_session_structure)
    our_identity_key ← query local_identity_key
    mac_valid ← lift (verify_mac ciphertext their_identity_key our_identity_key keys.mac_key)
    ensure mac_valid invalid_ciphertext
    ptext ← lift (aes_256_cbc_decrypt ciphertext.ciphertext keys.cipher_key keys.iv)
    modify clear_unacknowledged_pre_key_message
    pure ptext

  unfoldable pub decrypt_message_with_state : SignalMessage → Exec Working Bytes
  decrypt_message_with_state ciphertext = do
    on_state (check_session ciphertext)
    let their_ephemeral = ciphertext.sender_ratchet_key
    chain_key ← get_or_create_chain_key their_ephemeral
    keys ← on_state (get_or_create_message_key their_ephemeral chain_key ciphertext.counter)
    on_state (open_message ciphertext keys)

  -- What the loop over the archived sessions found: the text, the place and the new session.
  abbrev Hit : Type 0
  Hit = Option (Bytes × ℕ × SessionState)

  abbrev later : Result Hit × ℕ → Result Hit × ℕ
  later (ok none, g) = (ok none, g)
  later (ok (some (ptext, idx, updated)), g) = (ok (some (ptext, suc idx, updated)), g)
  later (err e, g) = (err e, g)

  -- A duplicate ends the loop, and so does a success; any other error goes on to the next session.
  abbrev judge : Result Bytes × Working → (ℕ → Result Hit × ℕ) → Result Hit × ℕ
  judge (ok ptext, w) rest = (ok (some (ptext, zero, w.state)), w.csprng)
  judge (err (duplicated_message index counter), w) rest =
      (err (duplicated_message index counter), w.csprng)
  judge (err e, w) rest = later (rest w.csprng)

  unfoldable pub try_previous : SignalMessage → List SessionState → ℕ → Result Hit × ℕ
  try_previous ciphertext [] csprng = (ok none, csprng)
  try_previous ciphertext (previous ∷ others) csprng =
      judge (decrypt_message_with_state ciphertext (record { state = previous; csprng = csprng }))
        (λ g. try_previous ciphertext others g)

  abbrev promote : SessionRecord → Result Hit × ℕ → Result Bytes × Opened
  promote r (ok (some (ptext, idx, updated)), g) = elim (promote_old_session idx updated r) [
    | ok r' ↦ (ok ptext, record { sessions = r'; csprng = g })
    | err e ↦ (err e, record { sessions = r; csprng = g })
  ]
  promote r (ok none, g) = (
    err (invalid_message "decryption failed; no matching session state"),
    record { sessions = r; csprng = g },
  )
  promote r (err e, g) = (err e, record { sessions = r; csprng = g })

  -- The result with the current session: success and a duplicate end the search.
  abbrev conclude : SignalMessage → SessionRecord → Result Bytes × Working → Result Bytes × Opened
  conclude ciphertext r (ok ptext, w) =
      (ok ptext, record { sessions = set_session_state w.state r; csprng = w.csprng })
  conclude ciphertext r (err (duplicated_message index counter), w) =
      (err (duplicated_message index counter), record { sessions = r; csprng = w.csprng })
  conclude ciphertext r (err e, w) =
      promote r (try_previous ciphertext r.previous_sessions w.csprng)

  unfoldable pub decrypt_message_with_record : SignalMessage → Exec Opened Bytes
  unfolding try_previous
  decrypt_message_with_record ciphertext o = elim (session_state o.sessions) [
    | err e ↦ (err e, o)
    | ok current ↦
        conclude ciphertext o.sessions
          (decrypt_message_with_state ciphertext (record { state = current; csprng = o.csprng }))
  ]
