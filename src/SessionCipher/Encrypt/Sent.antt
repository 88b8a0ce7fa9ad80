-- ===== src/SessionCipher/Encrypt/Sent.antt =====
-- What `encrypt_with_state` makes, and that the receiver's `open_message` takes it apart.
use libsignal_client.Common.{ℕ, ◌%◌, ◌≡◌, refl, sym, Option, none, some, arith}
use libsignal_client.Common.Bytes.{Bytes}
use libsignal_client.Error.{Result, ok, err, ok_or, >>=-eq-ok, invalid_session_structure}
use libsignal_client.Primitives.{Primitives, Lawful}
use libsignal_client.Crypto.{aes_256_cbc_encrypt, decrypt-encrypt}
use libsignal_client.Curve.PublicKey.{PublicKey}
use libsignal_client.Protocol.Wire.{Codec}
use libsignal_client.Protocol.SignalMessage
use libsignal_client.Protocol.SignalMessage.{SignalMessage, verify_mac, verify_mac-new, new-Made}
use libsignal_client.Protocol.PreKeySignalMessage
use libsignal_client.Protocol.Ciphertext.{
  CiphertextMessage, signal_message, pre_key_signal_message, sender_key_message,
  sender_key_distribution_message,
}
use libsignal_client.Ratchet.ChainKey.{ChainKey, next_chain_key, message_keys}
use libsignal_client.State.Session.{
  SessionState, UnacknowledgedPreKeyMessageItems, get_sender_chain_key, sender_ratchet_key,
  session_version, local_identity_key, remote_identity_key, unacknowledged_pre_key_message_items,
  set_sender_chain_key, clear_unacknowledged_pre_key_message,
}
use libsignal_client.SessionCipher.Encrypt.{wrap_message, encrypt_with_state}
use libsignal_client.SessionCipher.Decrypt.{open_message}

-- The signal message that a ciphertext message is or carries.
abbrev pub carried : CiphertextMessage → Option SignalMessage
carried (signal_message m) = some m
carried (pre_key_signal_message m) = some m.message
carried (sender_key_message m) = none
carried (sender_key_distribution_message m) = none

carried-wrap_message :
    ⦃c : Codec⦄
    → (version : ℕ) (s : SessionState) (local : PublicKey)
      (items : Option UnacknowledgedPreKeyMessageItems) (m : SignalMessage)
    → carried (wrap_message version s local items m) ≡ some m
unfolding wrap_message PreKeySignalMessage.new
carried-wrap_message version s local none m = refl
carried-wrap_message version s local (some items) m = refl

abbrev Outcome : Type 0
Outcome = Result (CiphertextMessage × SessionState × PublicKey)

module _ (m : CiphertextMessage) (s : SessionState) (k : PublicKey) where
  abbrev first_of : Outcome → CiphertextMessage
  first_of (ok (m', s', k')) = m'
  first_of (err e) = m

  abbrev second_of : Outcome → SessionState
  second_of (ok (m', s', k')) = s'
  second_of (err e) = s

  abbrev third_of : Outcome → PublicKey
  third_of (ok (m', s', k')) = k'
  third_of (err e) = k

module _ ⦃p : Primitives⦄ ⦃c : Codec⦄ (ptext : Bytes) (s : SessionState) where
  -- What a message was encrypted with.
  pub record Sent (k : ChainKey) (m : SignalMessage) (their : PublicKey) : Type 0 where
    pub local : PublicKey
    pub ratchet : PublicKey
    pub ctext : Bytes
    pub chain_key : get_sender_chain_key s ≡ ok k
    pub ratchet_key : sender_ratchet_key s ≡ ok ratchet
    pub local_is : local_identity_key s ≡ ok local
    pub remote_is : remote_identity_key s ≡ ok (some their)
    pub sealed :
        aes_256_cbc_encrypt ptext (message_keys k).cipher_key (message_keys k).iv ≡ ok ctext
    pub made :
        SignalMessage.new
          (session_version s % 256)
          (message_keys k).mac_key
          ratchet
          k.index
          s.previous_counter
          ctext
          local
          their
        ≡ ok m

  some_remote :
      (o : Option PublicKey) (t : PublicKey) → ok_or o invalid_session_structure ≡ ok t → o ≡ some t
  some_remote none t h = cc
  some_remote (some x) t h = ground arith

  sent_of :
      (k : ChainKey) (ratchet local : PublicKey) (remote : Option PublicKey) (t : PublicKey)
      (ctext : Bytes) (items : Option UnacknowledgedPreKeyMessageItems) (m : SignalMessage)
      (msg : CiphertextMessage) (s' : SessionState) (their : PublicKey)
      → get_sender_chain_key s ≡ ok k
      → sender_ratchet_key s ≡ ok ratchet
      → local_identity_key s ≡ ok local
      → remote_identity_key s ≡ ok remote
      → ok_or remote invalid_session_structure ≡ ok t
      → aes_256_cbc_encrypt ptext (message_keys k).cipher_key (message_keys k).iv ≡ ok ctext
      → SignalMessage.new
          (session_version s % 256)
          (message_keys k).mac_key
          ratchet
          k.index
          s.previous_counter
          ctext
          local
          t
        ≡ ok m
      → wrap_message (session_version s % 256) s local items m ≡ msg
      → set_sender_chain_key (next_chain_key k) s ≡ s'
      → t ≡ their
      → (k : ChainKey) × (m : SignalMessage) × Sent k m their
        × (carried msg ≡ some m)
        × (s' ≡ set_sender_chain_key (next_chain_key k) s)
  sent_of k ratchet local remote t ctext items m msg s' their e1 e2 e3 e4 e5 e6 e7 e8 e9 e10 = (
    k,
    m,
    record {
      local = local;
      ratchet = ratchet;
      ctext = ctext;
      chain_key = e1;
      ratchet_key = e2;
      local_is = e3;
      remote_is = rw (some_remote remote t e5, e10) at e4;
      sealed = e6;
      made = rw e10 at e7;
    },
    rw (← e8) (carried-wrap_message (session_version s % 256) s local items m),
    sym e9,
  )

  -- A success of `encrypt_with_state`: the message carries what was sealed with the sending
  -- chain's key, and the sending chain moves one step.
  pub encrypt_with_state-Sent :
      (msg : CiphertextMessage) (s' : SessionState) (their : PublicKey)
      → encrypt_with_state ptext s ≡ ok (msg, s', their)
      → (k : ChainKey) × (m : SignalMessage) × Sent k m their
        × (carried msg ≡ some m)
        × (s' ≡ set_sender_chain_key (next_chain_key k) s)
  unfolding encrypt_with_state
  encrypt_with_state-Sent msg s' their h =
      let (k, e1, h1) = >>=-eq-ok (get_sender_chain_key s) _ h in
      let (ratchet, e2, h2) = >>=-eq-ok (sender_ratchet_key s) _ h1 in
      let (local, e3, h3) = >>=-eq-ok (local_identity_key s) _ h2 in
      let (remote, e4, h4) = >>=-eq-ok (remote_identity_key s) _ h3 in
      let (t, e5, h5) = >>=-eq-ok (ok_or remote invalid_session_structure) _ h4 in
      let (ctext, e6, h6) = >>=-eq-ok (aes_256_cbc_encrypt ptext _ _) _ h5 in
      let (items, e7, h7) = >>=-eq-ok (unacknowledged_pre_key_message_items s) _ h6 in
      let (m, e8, h8) = >>=-eq-ok (SignalMessage.new _ _ _ _ _ _ _ _) _ h7 in
      sent_of k ratchet local remote t ctext items m msg s' their e1 e2 e3 e4 e5 e6 e8
        (λ i. first_of msg s their (h8 i)) (λ i. second_of msg s their (h8 i))
        (λ i. third_of msg s their (h8 i))

  -- The receiver opens what was sealed, where the two sessions name the same identity keys.
  pub open_message-Sent :
      (laws : Lawful p) {k : ChainKey} {m : SignalMessage} {their : PublicKey}
      (sent : Sent k m their) (r : SessionState)
      → remote_identity_key r ≡ ok (some sent.local)
      → local_identity_key r ≡ ok their
      → open_message m (message_keys k) r ≡ (ok ptext, clear_unacknowledged_pre_key_message r)
  unfolding open_message
  open_message-Sent laws {k} {m} {their} sent r remote local =
      let keys = message_keys k in
      let mac =
        verify_mac-new laws (session_version s % 256) keys.mac_key sent.ratchet k.index
          s.previous_counter sent.ctext sent.local their sent.made in
      let built =
        new-Made laws (session_version s % 256) keys.mac_key sent.ratchet k.index s.previous_counter
          sent.ctext sent.local their sent.made in
      let text : m.ciphertext ≡ sent.ctext = rw built.fields refl in
      rw (remote, local, mac, text, decrypt-encrypt laws ptext keys.cipher_key keys.iv sent.sealed)
