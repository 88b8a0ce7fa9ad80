-- ===== src/SessionCipher/Encrypt/Stream.antt =====
-- Messages from one sender to one receiver under one ratchet key: each is delivered or lost.
use libsignal_client.Common.{ℕ, suc, ◌+◌, ◌≤◌, ◌<◌, ◌≡◌, refl, subst, Option, some, inl, inr}
use libsignal_client.Common.Bytes.{Bytes}
use libsignal_client.Consts.{max_forward_jumps}
use libsignal_client.Error.{ok, Result-cases}
use libsignal_client.Primitives.{Primitives, Lawful}
use libsignal_client.Crypto.{aes_256_cbc_encrypt}
use libsignal_client.Curve.PublicKey.{PublicKey}
use libsignal_client.Protocol.Wire.{Codec}
use libsignal_client.Protocol.SignalMessage
use libsignal_client.Protocol.SignalMessage.{SignalMessage, compute_mac}
use libsignal_client.Protocol.Ciphertext.{CiphertextMessage}
use libsignal_client.Ratchet.ChainKey.{
  ChainKey, next_chain_key, u32_mod, message_keys-IsSized, length-next_chain_key,
}
use libsignal_client.State.Session.{
  SessionState, UnacknowledgedPreKeyMessageItems, set_sender_chain_key, get_sender_chain_key,
  sender_ratchet_key, session_version, local_identity_key, remote_identity_key,
  unacknowledged_pre_key_message_items,
}
use libsignal_client.SessionCipher.Keys.{Working, get_or_create_chain_key}
use libsignal_client.SessionCipher.Keys.Skip.{advance, next-advance}
use libsignal_client.SessionCipher.Keys.Replay.{get_receiver_chain_key-Ready}
use libsignal_client.SessionCipher.Encrypt.{encrypt_with_state}
use libsignal_client.SessionCipher.Encrypt.Sent.{carried, encrypt_with_state-Sent}
use libsignal_client.SessionCipher.Encrypt.InStep.{
  InStep, decrypt-encrypt_with_state, get_sender_chain_key-set_sender_chain_key,
  sender_ratchet_key-set_sender_chain_key,
}
use libsignal_client.SessionCipher.Decrypt.{decrypt_message_with_state}

-- Encryption succeeds where every part of the session that it reads can be read.
pub encrypt_with_state-succeeds :
    ⦃p : Primitives⦄ ⦃c : Codec⦄
    → (laws : Lawful p) (ptext : Bytes) (s : SessionState) (k : ChainKey)
      (ratchet sender receiver : PublicKey) (items : Option UnacknowledgedPreKeyMessageItems)
    → get_sender_chain_key s ≡ ok k
    → sender_ratchet_key s ≡ ok ratchet
    → local_identity_key s ≡ ok sender
    → remote_identity_key s ≡ ok (some receiver)
    → unacknowledged_pre_key_message_items s ≡ ok items
    → (msg : CiphertextMessage) × (s' : SessionState) × (encrypt_with_state ptext s
        ≡ ok (msg, s', receiver))
unfolding encrypt_with_state aes_256_cbc_encrypt SignalMessage.new compute_mac
encrypt_with_state-succeeds laws ptext s k ratchet sender receiver items sending at local remote
      pending =
    let sizes = message_keys-IsSized laws k in
    elim (Result-cases (encrypt_with_state ptext s)) [
      | inr (e, bad) ↦ absurd (
          cc (
            rw
              (
                sending, at, local, remote, pending, sizes.cipher_key_length, sizes.iv_length,
                sizes.mac_key_length,
              )
              at bad))
      | inl ((msg, s', their), good) ↦
          let (k, m, sent, carries, e) = encrypt_with_state-Sent ptext s msg s' their good in
          (
            msg,
            s',
            subst (λ x. encrypt_with_state ptext s ≡ ok (msg, s', x)) (cc (sent.remote_is, remote))
                good,
          )
    ]

module _ ⦃p : Primitives⦄ ⦃c : Codec⦄ (laws : Lawful p) (ptext : Bytes) (ratchet : PublicKey)
    (n : ℕ) (s : SessionState) where
  -- A receiver that is no more than `MAX_FORWARD_JUMPS` messages behind decrypts what the sender
  -- encrypts, as long as the counters do not wrap, and the two are in step afterwards.
  pub deliver :
      (w : Working) (step : InStep ratchet n s w.state)
      → n ≤ max_forward_jumps
      → step.key.index + n + 1 < u32_mod
      → (msg : CiphertextMessage) (s' : SessionState) (their : PublicKey) (m : SignalMessage)
      → encrypt_with_state ptext s ≡ ok (msg, s', their)
      → carried msg ≡ some m
      → (w' : Working) × (decrypt_message_with_state m w ≡ (ok ptext, w'))
        × InStep ratchet 0 s' w'.state
  unfolding get_or_create_chain_key
  deliver w step near fits msg s' their m h carries =
      decrypt-encrypt_with_state laws ptext ratchet n s w w step near fits
        (rw (get_receiver_chain_key-Ready step.ready)) step.sends refl msg s' their m h carries

  -- A message that is encrypted and does not arrive leaves the receiver one step further behind.
  pub lose :
      (r : SessionState) (step : InStep ratchet n s r)
      → (msg : CiphertextMessage) (s' : SessionState) (their : PublicKey)
      → encrypt_with_state ptext s ≡ ok (msg, s', their)
      → InStep ratchet (suc n) s' r
  unfolding local_identity_key remote_identity_key session_version set_sender_chain_key
      next_chain_key
  lose r step msg s' their h =
      let (k, m, sent, carries, e) = encrypt_with_state-Sent ptext s msg s' their h in
      let kk = advance n step.key in
      let is_key : k ≡ kk = cc (sent.chain_key, step.sending) in
      let e' : s' ≡ set_sender_chain_key (next_chain_key kk) s = rw is_key at e in
      rw e' (record {
        key = step.key;
        ready = step.ready;
        sending = rw (← next-advance n step.key) (
            get_sender_chain_key-set_sender_chain_key s (next_chain_key kk) step.sending refl
              (length-next_chain_key laws kk));
        ratchet_is =
            rw
              (sender_ratchet_key-set_sender_chain_key s (next_chain_key kk) step.sending refl
                (length-next_chain_key laws kk))
              step.ratchet_is;
        sender = step.sender;
        receiver = step.receiver;
        local_s = step.local_s;
        remote_s = step.remote_s;
        local_r = step.local_r;
        remote_r = step.remote_r;
        version = step.version;
        sends = step.sends;
      })

  -- Encryption succeeds on a session with a receiver in step, where what the session says of an
  -- unacknowledged pre-key can be read.
  pub encrypt_with_state-total :
      (r : SessionState) (step : InStep ratchet n s r)
      → (items : Option UnacknowledgedPreKeyMessageItems)
      → unacknowledged_pre_key_message_items s ≡ ok items
      → (msg : CiphertextMessage) × (s' : SessionState) × (encrypt_with_state ptext s
          ≡ ok (msg, s', step.receiver))
  encrypt_with_state-total r step items pending =
      encrypt_with_state-succeeds laws ptext s (advance n step.key) ratchet step.sender
        step.receiver items step.sending step.ratchet_is step.local_s step.remote_s pending
