-- ===== src/Group/Deliver.antt =====
-- A group's sender and a receiver of its messages: what is encrypted next is decrypted.
use libsignal_client.Common.{
  ℕ, zero, suc, ◌+◌, ◌≤◌, ◌<◌, ◌≡◌, refl, sym, ap, ◌∙◌, true, Option, none, some, [], ◌∷◌, arith,
  set, inl, inr, ◌==◌, Bool-cases,
}
use libsignal_client.Common.Bytes.{Bytes}
use libsignal_client.Consts.{max_forward_jumps}
use libsignal_client.Error.{
  Result, ok, err, ok_or, >>=-eq-ok, Result-cases, sender_key_signing_key_missing,
}
use libsignal_client.Primitives.{Primitives, Lawful}
use libsignal_client.Crypto.{aes_256_cbc_encrypt, aes_256_cbc_decrypt, decrypt-encrypt}
use libsignal_client.Curve.PublicKey.{PublicKey}
use libsignal_client.Curve.PrivateKey.{PrivateKey, public_key}
use libsignal_client.Protocol.Wire.{Codec, RoundTrips}
use libsignal_client.Protocol.SenderKeyMessage
use libsignal_client.Protocol.SenderKeyMessage.{
  SenderKeyMessage, message_verify_signature, message_verify_signature-new, try_from-new_sender_key,
}
use libsignal_client.Ratchet.ChainKey.{u32_mod}
use libsignal_client.Group.SenderKeys.{
  SenderChainKey, SenderMessageKey, SenderKeyState, next, sender_message_key, sender_chain_key,
  set_sender_chain_key, signing_key_public, signing_key_private, chain_key_as_protobuf,
}
use libsignal_client.Group.Record.{
  SenderKeyRecord, sender_key_state, sender_key_state_for_keyid, shift,
}
use libsignal_client.Group.Cipher.{
  get_sender_key, decrypt_with_record, encrypt_parts, encrypt_with_record,
}
use libsignal_client.Group.Skip.{
  advance, kept, iteration-advance, kept-SameKeys, get_sender_key_ahead,
}

-- The receiver's chain of the sender's key is `n` steps behind the sender's own.
pub record InStep ⦃p : Primitives⦄ (n : ℕ) (s r : SenderKeyRecord) : Type 0 where
  pub key : SenderChainKey
  pub state_s : SenderKeyState
  pub state_r : SenderKeyState
  pub place : ℕ
  pub signing_key : PrivateKey
  pub first : sender_key_state s ≡ ok state_s
  pub chain_s : sender_chain_key state_s ≡ ok (advance n key)
  pub private_s : signing_key_private state_s ≡ ok (some signing_key)
  pub found : sender_key_state_for_keyid state_s.sender_key_id r ≡ ok (state_r, place)
  pub chain_r : sender_chain_key state_r ≡ ok key
  pub public_r : signing_key_public state_r ≡ ok (public_key signing_key)

unshift :
    (x : Result (SenderKeyState × ℕ)) (s : SenderKeyState) (i : ℕ)
    → shift x ≡ ok (s, suc i)
    → x ≡ ok (s, i)
unshift (err e) s i h = cc
unshift (ok (t, j)) s i h = ground (arith, h)

-- Writing a state of the same key where one was found.
found-set :
    (id : ℕ) (r : SenderKeyRecord) (s t : SenderKeyState) (i : ℕ)
    → sender_key_state_for_keyid id r ≡ ok (s, i)
    → t.sender_key_id ≡ s.sender_key_id
    → sender_key_state_for_keyid id (set r i t) ≡ ok (t, i)
unfolding sender_key_state_for_keyid set
found-set id [] s t i h e = cc
found-set id (x ∷ xs) s t zero h e = elim (Bool-cases (x.sender_key_id == id)) [
  | inl here ↦
      let same : x ≡ s = ground (arith, here, h) in
      let is : t.sender_key_id ≡ x.sender_key_id =
        e ∙ ap (λ (y : SenderKeyState). y.sender_key_id) (sym same) in
      rw (is, here)
  | inr away ↦ ground (arith, away, h)
]
found-set id (x ∷ xs) s t (suc i) h e = elim (Bool-cases (x.sender_key_id == id)) [
  | inl here ↦ ground (arith, here, h)
  | inr away ↦
      let tail : sender_key_state_for_keyid id xs ≡ ok (s, i) = unshift _ s i (rw away at h) in
      rw (away, found-set id xs s t i tail e)
]

set_first :
    (s : SenderKeyRecord) (x t : SenderKeyState)
    → sender_key_state s ≡ ok x
    → sender_key_state (set s 0 t) ≡ ok t
unfolding sender_key_state set
set_first [] x t h = cc
set_first (y ∷ ys) x t h = refl

-- The steps of a decryption, one after the other.
run :
    ⦃p : Primitives⦄
    → ⦃c : Codec⦄
    → (bytes : Bytes) (r : SenderKeyRecord) (skm : SenderKeyMessage) (state : SenderKeyState)
      (place : ℕ) (k : PublicKey) (key : SenderMessageKey) (state' : SenderKeyState) {ptext : Bytes}
    → SenderKeyMessage.try_from bytes ≡ ok skm
    → sender_key_state_for_keyid skm.key_id r ≡ ok (state, place)
    → signing_key_public state ≡ ok k
    → message_verify_signature skm k ≡ ok true
    → get_sender_key skm.iteration state ≡ ok (key, state')
    → aes_256_cbc_decrypt skm.ciphertext key.cipher_key key.iv ≡ ok ptext
    → decrypt_with_record bytes r ≡ ok (ptext, set r place state')
unfolding decrypt_with_record
run bytes r skm state place k key state' parsed found public valid got plain =
    rw (parsed, found, public, valid, got, plain)

module _ ⦃p : Primitives⦄ ⦃c : Codec⦄ (laws : Lawful p) (trips : RoundTrips c) (ptext : Bytes)
    (csprng : ℕ) (n : ℕ) (s : SenderKeyRecord) (bytes : Bytes) (s' : SenderKeyRecord) (csprng' : ℕ)
    (made : encrypt_with_record ptext csprng s ≡ (ok (bytes, s'), csprng')) where
  abbrev message : SenderKeyState → SenderChainKey → Bytes → PrivateKey → SenderKeyMessage
  message state k ctext signing_key =
      (SenderKeyMessage.new state.sender_key_id k.iteration ctext csprng signing_key).0

  -- What a message was encrypted with.
  record Sent : Type 0 where
    pub state : SenderKeyState
    pub k : SenderChainKey
    pub ctext : Bytes
    pub signing_key : PrivateKey
    pub state_is : sender_key_state s ≡ ok state
    pub chain_is : sender_chain_key state ≡ ok k
    pub sealed_is :
        aes_256_cbc_encrypt ptext (sender_message_key k).cipher_key (sender_message_key k).iv
        ≡ ok ctext
    pub private_is : signing_key_private state ≡ ok (some signing_key)
    pub bytes_is : bytes ≡ (message state k ctext signing_key).serialized
    pub moved : s' ≡ set s 0 (set_sender_chain_key (next k) state)

  some_private :
      (o : Option PrivateKey) (k : PrivateKey)
      → ok_or o sender_key_signing_key_missing ≡ ok k
      → o ≡ some k
  some_private none k h = cc
  some_private (some x) k h = ground arith

  sent_of :
      (x1 : SenderKeyState) (x2 : SenderChainKey) (x3 : Bytes) (x4 : Option PrivateKey)
      (x5 : PrivateKey)
      → sender_key_state s ≡ ok x1
      → sender_chain_key x1 ≡ ok x2
      → aes_256_cbc_encrypt ptext (sender_message_key x2).cipher_key (sender_message_key x2).iv
        ≡ ok x3
      → signing_key_private x1 ≡ ok x4
      → ok_or x4 sender_key_signing_key_missing ≡ ok x5
      → encrypt_parts ptext s ≡ ok (x1, x2, x3, x5)
      → Sent
  unfolding encrypt_with_record
  sent_of x1 x2 x3 x4 x5 e1 e2 e3 e4 e5 q =
      let made' = rw q at made in
      record {
        state = x1;
        k = x2;
        ctext = x3;
        signing_key = x5;
        state_is = e1;
        chain_is = e2;
        sealed_is = e3;
        private_is = rw (some_private x4 x5 e5) at e4;
        bytes_is = ground (arith, made');
        moved = ground (arith, made');
      }

  made-Sent : Sent
  unfolding encrypt_with_record encrypt_parts
  made-Sent = elim (Result-cases (encrypt_parts ptext s)) [
    | inr (e, bad) ↦ absurd (cc (rw bad at made))
    | inl ((state, k, ctext, signing_key), good) ↦
        let (x1, e1, h1) = >>=-eq-ok (sender_key_state s) _ good in
        let (x2, e2, h2) = >>=-eq-ok (sender_chain_key x1) _ h1 in
        let (x3, e3, h3) = >>=-eq-ok (aes_256_cbc_encrypt ptext _ _) _ h2 in
        let (x4, e4, h4) = >>=-eq-ok (signing_key_private x1) _ h3 in
        let (x5, e5, h5) = >>=-eq-ok (ok_or x4 sender_key_signing_key_missing) _ h4 in
        sent_of x1 x2 x3 x4 x5 e1 e2 e3 e4 e5 (good ∙ sym h5)
  ]

  parsed :
      (m : Sent) → SenderKeyMessage.try_from bytes ≡ ok (message m.state m.k m.ctext m.signing_key)
  parsed m = rw m.bytes_is (
      try_from-new_sender_key laws m.state.sender_key_id m.k.iteration m.ctext csprng m.signing_key
        trips)

  module _ (r : SenderKeyRecord) (step : InStep n s r) (near : n ≤ max_forward_jumps)
      (fits : step.key.iteration + n < u32_mod) where
    abbrev after : SenderKeyState
    after = set_sender_chain_key (next (advance n step.key)) (kept n step.key step.state_r)

    module _ (m : Sent) where
      found_at :
          m.state ≡ step.state_s
          → sender_key_state_for_keyid (message m.state m.k m.ctext m.signing_key).key_id r
            ≡ ok (step.state_r, step.place)
      unfolding SenderKeyMessage.new
      found_at e = rw e step.found

      iterated :
          m.k ≡ advance n step.key
          → get_sender_key (message m.state m.k m.ctext m.signing_key).iteration step.state_r
            ≡ ok (sender_message_key (advance n step.key), after)
      unfolding SenderKeyMessage.new
      iterated e =
          let got = (get_sender_key_ahead step.key step.state_r step.chain_r n near fits).0 in
          let same : m.k.iteration ≡ step.key.iteration + n =
            ap (λ (x : SenderChainKey). x.iteration) e ∙ iteration-advance n step.key fits in
          rw same got

      opened :
          m.k ≡ advance n step.key
          → aes_256_cbc_decrypt
              (message m.state m.k m.ctext m.signing_key).ciphertext
              (sender_message_key (advance n step.key)).cipher_key
              (sender_message_key (advance n step.key)).iv
            ≡ ok ptext
      unfolding SenderKeyMessage.new
      opened e = let plain = decrypt-encrypt laws ptext _ _ m.sealed_is in rw e at plain

      in_step :
          m.state ≡ step.state_s → m.k ≡ advance n step.key → InStep 0 s' (set r step.place after)
      unfolding advance set_sender_chain_key chain_key_as_protobuf sender_chain_key
          signing_key_private signing_key_public
      in_step e e' =
          let same = kept-SameKeys n step.key step.state_r in
          let moved : s' ≡ set s 0 (set_sender_chain_key (next (advance n step.key)) step.state_s) =
            rw (e, e') at m.moved in
          rw moved (record {
            key = next (advance n step.key);
            state_s = set_sender_chain_key (next (advance n step.key)) step.state_s;
            state_r = after;
            place = step.place;
            signing_key = step.signing_key;
            first = set_first s step.state_s _ step.first;
            chain_s = refl;
            private_s = step.private_s;
            found =
                found-set step.state_s.sender_key_id r step.state_r after step.place step.found
                  same.id;
            chain_r = refl;
            public_r = rw same.signing step.public_r;
          })

    -- A receiver that is no more than `MAX_FORWARD_JUMPS` messages behind decrypts the message that
    -- the sender encrypts to its text, as long as the iterations do not wrap, and the two are in step
    -- again.
    pub decrypt-encrypt_with_record :
        (r' : SenderKeyRecord) × (decrypt_with_record bytes r ≡ ok (ptext, r')) × InStep 0 s' r'
    decrypt-encrypt_with_record =
        let m = made-Sent in
        let is_state : m.state ≡ step.state_s = cc (m.state_is, step.first) in
        let chain = rw is_state at m.chain_is in
        let private = rw is_state at m.private_is in
        let is_key : m.k ≡ advance n step.key = cc (chain, step.chain_s) in
        let is_signing : m.signing_key ≡ step.signing_key = cc (private, step.private_s) in
        let got = get_sender_key_ahead step.key step.state_r step.chain_r n near fits in
        (
          set r step.place after,
          run bytes r (message m.state m.k m.ctext m.signing_key) step.state_r step.place
              (public_key m.signing_key) (sender_message_key (advance n step.key)) after (parsed m)
              (found_at m is_state)
              (step.public_r ∙ ap (λ (x : PrivateKey). ok (public_key x)) (sym is_signing))
              (message_verify_signature-new laws m.state.sender_key_id m.k.iteration m.ctext csprng
                m.signing_key)
              (iterated m is_key) (opened m is_key),
          in_step m is_state is_key,
        )
