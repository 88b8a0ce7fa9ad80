-- ===== src/SessionCipher/Encrypt/InStep.antt =====
-- A sender and a receiver in step: whatever is sent next is decrypted, messages being lost or not.
use libsignal_client.Common.{
  ℕ, zero, suc, ◌+◌, ◌-◌, ◌%◌, ◌≤◌, ◌<◌, ◌≡◌, refl, sym, ap, subst, true, some, arith, length,
  ==_iff,
}
use libsignal_client.Common.Bytes.{Bytes}
use libsignal_client.Consts.{max_forward_jumps}
use libsignal_client.Error.{ok}
use libsignal_client.Primitives.{Primitives, Lawful}
use libsignal_client.Curve.PublicKey.{PublicKey}
use libsignal_client.Protocol.Wire.{Codec}
use libsignal_client.Protocol.SignalMessage.{SignalMessage, new-Made}
use libsignal_client.Protocol.Ciphertext.{CiphertextMessage}
use libsignal_client.Ratchet.ChainKey
use libsignal_client.Ratchet.ChainKey.{
  ChainKey, next_chain_key, message_keys, u32_mod, index-next_chain_key, length-next_chain_key,
}
use libsignal_client.State.Session.{
  SessionState, get_sender_chain_key, sender_ratchet_key, session_version, local_identity_key,
  remote_identity_key, set_sender_chain_key, with_chain_key, clear_unacknowledged_pre_key_message,
  has_sender_chain, store_chain_key, get_receiver_chain,
}
use libsignal_client.State.Session.Chains.{with_chain}
use libsignal_client.SessionCipher.Keys.{
  Working, get_or_create_chain_key, get_or_create_message_key,
}
use libsignal_client.SessionCipher.Keys.Skip.{advance, index-advance}
use libsignal_client.SessionCipher.Keys.Message.{moved, get_or_create_message_key_ahead}
use libsignal_client.SessionCipher.Keys.Replay.{Ready, ahead-Spent}
use libsignal_client.SessionCipher.Encrypt.{encrypt_with_state}
use libsignal_client.SessionCipher.Encrypt.Sent.{
  carried, Sent, encrypt_with_state-Sent, open_message-Sent,
}
use libsignal_client.SessionCipher.Decrypt.Duplicate.{Accepts}
use libsignal_client.SessionCipher.Decrypt.Steps.{known_version, run}
use libsignal_client.SessionCipher.Decrypt.{decrypt_message_with_state}

-- The receiver's chain for the sender's ratchet key is `n` steps behind the sender's own, and the
-- two sessions agree on the identities and the version.
pub record InStep ⦃p : Primitives⦄ (ratchet : PublicKey) (n : ℕ) (s r : SessionState) : Type 0 where
  pub key : ChainKey
  pub ready : Ready ratchet key r
  pub sending : get_sender_chain_key s ≡ ok (advance n key)
  pub ratchet_is : sender_ratchet_key s ≡ ok ratchet
  pub sender : PublicKey
  pub receiver : PublicKey
  pub local_s : local_identity_key s ≡ ok sender
  pub remote_s : remote_identity_key s ≡ ok (some receiver)
  pub local_r : local_identity_key r ≡ ok receiver
  pub remote_r : remote_identity_key r ≡ ok (some sender)
  pub version : session_version s ≡ session_version r
  pub sends : has_sender_chain r ≡ true

-- What writing the sending chain's key leaves alone, and what it is read back as.
module _ (s : SessionState) {k : ChainKey} (k' : ChainKey) (before : get_sender_chain_key s ≡ ok k)
    (same : k'.kdf ≡ k.kdf) (sized : length k'.key ≡ 32) where
  pub get_sender_chain_key-set_sender_chain_key :
      get_sender_chain_key (set_sender_chain_key k' s) ≡ ok k'
  unfolding get_sender_chain_key set_sender_chain_key with_chain_key store_chain_key ChainKey.new
  get_sender_chain_key-set_sender_chain_key = ground arith

  pub sender_ratchet_key-set_sender_chain_key :
      sender_ratchet_key (set_sender_chain_key k' s) ≡ sender_ratchet_key s
  unfolding get_sender_chain_key sender_ratchet_key set_sender_chain_key with_chain_key
  sender_ratchet_key-set_sender_chain_key = ground arith

-- Clearing the pending pre-key leaves the chains alone.
clear-Ready :
    {ratchet : PublicKey} {k : ChainKey} {s : SessionState}
    → Ready ratchet k s
    → Ready ratchet k (clear_unacknowledged_pre_key_message s)
unfolding clear_unacknowledged_pre_key_message session_version get_receiver_chain
clear-Ready r = record {
  chain = r.chain;
  place = r.place;
  found = r.found;
  stored = r.stored;
  version = r.version;
  sized = r.sized;
  ordered = r.ordered;
  room = r.room;
}

module _ ⦃p : Primitives⦄ (laws : Lawful p) where
  pub advance_kept :
      (n : ℕ) (k : ChainKey)
      → length k.key ≡ 32
      → (length (advance n k).key ≡ 32) × ((advance n k).kdf ≡ k.kdf)
  unfolding advance next_chain_key
  advance_kept zero k h = (h, refl)
  advance_kept (suc n) k h = advance_kept n (next_chain_key k) (length-next_chain_key laws k)

  -- The receiver finds the key of the sender's message, and is past it afterwards.
  module _ (ratchet : PublicKey) (n : ℕ) (key : ChainKey) (r : SessionState)
      (ready : Ready ratchet key r) (near : n ≤ max_forward_jumps)
      (fits : key.index + n + 1 < u32_mod) where
    abbrev past : SessionState
    past = with_chain r ready.place (moved n key ready.chain)

    key_found :
        get_or_create_message_key ratchet key (advance n key).index r
        ≡ (ok (message_keys (advance n key)), past)
    key_found =
        let jump : (key.index + n) - key.index ≡ n = omega arith in
        let found =
          get_or_create_message_key_ahead ratchet key (key.index + n) r ready.chain ready.place
            ready.found ready.room (omega arith) (omega arith) (omega arith) in
        subst
          (λ c.
            get_or_create_message_key ratchet key c r ≡ (ok (message_keys (advance n key)), past))
          (sym (index-advance n key (omega arith))) (rw jump at found)

    past-Ready : Ready ratchet (next_chain_key (advance n key)) past
    past-Ready =
        let jump : (key.index + n) - key.index ≡ n = omega arith in
        let (t, is) =
          ahead-Spent ratchet key (key.index + n) r ready (omega arith) laws {s' = past}
            (omega arith) (rw jump refl) in
        rw (is, jump) at t.ready

-- What the receiver does with a message that the sender has just made, where its chain for the
-- sender's ratchet key is there or comes from a step of the double ratchet.
module _ ⦃p : Primitives⦄ ⦃c : Codec⦄ (laws : Lawful p) (ptext : Bytes) (ratchet : PublicKey)
    (n : ℕ) (s : SessionState) (w u : Working) (step : InStep ratchet n s u.state)
    (near : n ≤ max_forward_jumps) (fits : step.key.index + n + 1 < u32_mod)
    (reached : get_or_create_chain_key ratchet w ≡ (ok step.key, u))
    (sends : has_sender_chain w.state ≡ true)
    (version : session_version w.state ≡ session_version u.state) where
  abbrev after : SessionState
  after =
      clear_unacknowledged_pre_key_message
        (past laws ratchet n step.key u.state step.ready near fits)

  kept_remote :
      remote_identity_key u.state ≡ ok (some step.sender)
      → remote_identity_key (past laws ratchet n step.key u.state step.ready near fits)
        ≡ ok (some step.sender)
  unfolding remote_identity_key
  kept_remote h = h

  kept_local :
      local_identity_key u.state ≡ ok step.receiver
      → local_identity_key (past laws ratchet n step.key u.state step.ready near fits)
        ≡ ok step.receiver
  unfolding local_identity_key
  kept_local h = h

  decrypt-sent :
      (k : ChainKey) (m : SignalMessage) (their : PublicKey) (sent : Sent ptext s k m their)
      → decrypt_message_with_state m w ≡ (ok ptext, record u { state = after })
  decrypt-sent k m their sent =
      let v = session_version s % 256 in
      let built =
        new-Made laws v (message_keys k).mac_key sent.ratchet k.index s.previous_counter sent.ctext
          sent.local their sent.made in
      let is_key : k ≡ advance n step.key = cc (sent.chain_key, step.sending) in
      let is_ratchet : sent.ratchet ≡ ratchet = cc (sent.ratchet_key, step.ratchet_is) in
      let is_local : step.sender ≡ sent.local = cc (sent.local_is, step.local_s) in
      let is_their : step.receiver ≡ their = cc (sent.remote_is, step.remote_s) in
      let from : m.sender_ratchet_key ≡ ratchet = rw built.fields is_ratchet in
      let at : m.counter ≡ (advance n step.key).index =
        rw built.fields (ap (λ (x : ChainKey). x.index) is_key) in
      let tagged : m.message_version ≡ session_version w.state = rw built.fields (
        omega (
          arith,
          version,
          step.version,
          known_version (session_version u.state) step.ready.version,
        )) in
      let found = key_found laws ratchet n step.key u.state step.ready near fits in
      let remote = kept_remote step.remote_r in
      let local = kept_local step.local_r in
      let opened =
        open_message-Sent ptext s laws sent
          (past laws ratchet n step.key u.state step.ready near fits) (rw is_local at remote)
          (rw is_their at local) in
      let found' =
        subst
          (λ x. get_or_create_message_key ratchet step.key x u.state ≡ (
            ok (message_keys (advance n step.key)),
            past laws ratchet n step.key u.state step.ready near fits,
          ))
          (sym at) found in
      let accepts : Accepts m w.state = record {
        sends = sends;
        version = (==_iff m.message_version (session_version w.state)).1 tagged;
      } in
      run m w u _ ratchet from accepts reached found' (rw is_key at opened)

  after-InStep :
      (k : ChainKey) (s' : SessionState)
      → get_sender_chain_key s ≡ ok k
      → s' ≡ set_sender_chain_key (next_chain_key k) s
      → InStep ratchet 0 s' after
  unfolding advance next_chain_key local_identity_key remote_identity_key session_version
      has_sender_chain set_sender_chain_key clear_unacknowledged_pre_key_message
  after-InStep k s' is e =
      let is_key : k ≡ advance n step.key = cc (is, step.sending) in
      let kk = advance n step.key in
      let kept = advance_kept laws n step.key step.ready.sized in
      let e' : s' ≡ set_sender_chain_key (next_chain_key kk) s = rw is_key at e in
      rw e' (record {
        key = next_chain_key kk;
        ready = clear-Ready (past-Ready laws ratchet n step.key u.state step.ready near fits);
        sending =
            get_sender_chain_key-set_sender_chain_key s (next_chain_key kk) step.sending refl
              (length-next_chain_key laws kk);
        ratchet_is =
            rw
              (sender_ratchet_key-set_sender_chain_key s (next_chain_key kk) step.sending refl
                (length-next_chain_key laws kk))
              step.ratchet_is;
        sender = step.sender;
        receiver = step.receiver;
        local_s = step.local_s;
        remote_s = step.remote_s;
        local_r = step.local_r;
        remote_r = step.remote_r;
        version = step.version;
        sends = step.sends;
      })

  -- The message that the sender made is decrypted to its text, and the two are in step again, the
  -- receiver having caught up.
  pub decrypt-encrypt_with_state :
      (msg : CiphertextMessage) (s' : SessionState) (their : PublicKey) (m : SignalMessage)
      → encrypt_with_state ptext s ≡ ok (msg, s', their)
      → carried msg ≡ some m
      → (w' : Working) × (decrypt_message_with_state m w ≡ (ok ptext, w'))
        × InStep ratchet 0 s' w'.state
  decrypt-encrypt_with_state msg s' their m h carries =
      let (k, m', sent, carries', e) = encrypt_with_state-Sent ptext s msg s' their h in
      let same : m' ≡ m = cc (carries, carries') in
      (
        record u { state = after },
        subst (λ x. decrypt_message_with_state x w ≡ (ok ptext, record u { state = after })) same
            (decrypt-sent k m' their sent),
        after-InStep k s' sent.chain_key e,
      )
