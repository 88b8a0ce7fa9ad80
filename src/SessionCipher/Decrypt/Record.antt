-- ===== src/SessionCipher/Decrypt/Record.antt =====
-- Decryption with a whole record: what changes, and that a message is taken once.
use libsignal_client.Common.{
  ℕ, ◌+◌, ◌<◌, ◌≡◌, refl, sym, subst, inl, inr, none, some, List, [], ◌∷◌, arith, All, Option-cases,
}
use libsignal_client.Common.Bytes.{Bytes}
use libsignal_client.Error.{SignalProtocolError, Result, ok, err, duplicated_message, Result-cases}
use libsignal_client.Primitives.{Primitives, Lawful}
use libsignal_client.Curve.PublicKey.{IsKey}
use libsignal_client.Protocol.SignalMessage.{SignalMessage}
use libsignal_client.Ratchet.ChainKey.{u32_mod}
use libsignal_client.State.Session.{SessionState}
use libsignal_client.State.Session.WellFormed.{WellFormed}
use libsignal_client.State.Record.{
  SessionRecord, RecordWellFormed, session_state, set_session_state, promote_old_session,
  promote_old_session-WellFormed,
}
use libsignal_client.SessionCipher.Keys.{Working}
use libsignal_client.SessionCipher.Decrypt.{
  Opened, Hit, later, judge, promote, conclude, try_previous, decrypt_message_with_state,
  decrypt_message_with_record,
}
use libsignal_client.SessionCipher.Decrypt.Duplicate.{
  Decrypted, decrypt_message_with_state-Decrypted, Decrypted-duplicated,
}

module _ ⦃p : Primitives⦄ where
  promote_fails :
      (r : SessionRecord) (x : Result Hit × ℕ) (e : SignalProtocolError) (o : Opened)
      → promote r x ≡ (err e, o)
      → o.sessions ≡ r
  promote_fails r (ok none, g) e o h = ground arith
  promote_fails r (ok (some (ptext, idx, updated)), g) e o h = ground arith
  promote_fails r (err x, g) e o h = ground arith

  conclude_fails :
      (m : SignalMessage) (r : SessionRecord) (x : Result Bytes × Working) (e : SignalProtocolError)
      (o : Opened)
      → conclude m r x ≡ (err e, o)
      → o.sessions ≡ r
  conclude_fails m r (ok ptext, w) e o h = cc
  conclude_fails m r (err (duplicated_message i c), w) e o h = ground arith
  conclude_fails m r (err x, w) e o h =
      promote_fails r (try_previous m r.previous_sessions w.csprng) e o h

  -- A message that cannot be decrypted changes no session of the record.
  pub decrypt_message_with_record_fails :
      (m : SignalMessage) (o o' : Opened) (e : SignalProtocolError)
      → decrypt_message_with_record m o ≡ (err e, o')
      → o'.sessions ≡ o.sessions
  unfolding decrypt_message_with_record session_state
  decrypt_message_with_record_fails m o o' e h = elim (Option-cases o.sessions.current_session) [
    | inl no_session ↦ ground (arith, no_session)
    | inr (current, there) ↦
        conclude_fails m o.sessions
          (decrypt_message_with_state m (record { state = current; csprng = o.csprng })) e o'
          (rw (there, decrypt_message_with_record) at h)
  ]

-- What a decryption that succeeds makes of a record.
pub record Renewed (m : SignalMessage) (r : SessionRecord) : Type 0 where
  pub state : SessionState
  pub current : r.current_session ≡ some state
  pub decrypted : Decrypted m state
  pub formed : RecordWellFormed r

module _ ⦃p : Primitives⦄ (laws : Lawful p) (m : SignalMessage) (sized : IsKey m.sender_ratchet_key)
    (fits : m.counter + 1 < u32_mod) where
  abbrev HitDecrypted : Result Hit × ℕ → Type 0
  HitDecrypted (ok (some (ptext, idx, updated)), g) = Decrypted m updated
  HitDecrypted (ok none, g) = Unit {0}
  HitDecrypted (err e, g) = Unit {0}

  later-HitDecrypted : (x : Result Hit × ℕ) → HitDecrypted x → HitDecrypted (later x)
  later-HitDecrypted (ok (some (ptext, idx, updated)), g) d = d
  later-HitDecrypted (ok none, g) d = tt
  later-HitDecrypted (err e, g) d = tt

  judge-HitDecrypted :
      (x : Result Bytes × Working) (rest : ℕ → Result Hit × ℕ)
      → ((ptext : Bytes) (w : Working) → x ≡ (ok ptext, w) → Decrypted m w.state)
      → ((g : ℕ) → HitDecrypted (rest g))
      → HitDecrypted (judge x rest)
  judge-HitDecrypted (ok ptext, w) rest good others = good ptext w refl
  judge-HitDecrypted (err (duplicated_message i c), w) rest good others = tt
  judge-HitDecrypted (err e, w) rest good others =
      later-HitDecrypted (rest w.csprng) (others w.csprng)

  try_previous-HitDecrypted :
      (ss : List SessionState) (g : ℕ) → All WellFormed ss → HitDecrypted (try_previous m ss g)
  unfolding try_previous
  try_previous-HitDecrypted [] g a = tt
  try_previous-HitDecrypted (s ∷ ss) g a =
      judge-HitDecrypted (decrypt_message_with_state m (record { state = s; csprng = g }))
        (λ g'. try_previous m ss g')
        (λ ptext w e.
          decrypt_message_with_state-Decrypted laws m sized fits (record { state = s; csprng = g })
            w ptext a.0 e)
        (λ g'. try_previous-HitDecrypted ss g' a.1)

  promote-Renewed :
      (r : SessionRecord) (x : Result Hit × ℕ) (ptext : Bytes) (o : Opened)
      → RecordWellFormed r
      → HitDecrypted x
      → promote r x ≡ (ok ptext, o)
      → Renewed m o.sessions
  promote-Renewed r (ok none, g) ptext o f d h = cc
  promote-Renewed r (err e, g) ptext o f d h = cc
  promote-Renewed r (ok (some (text, idx, updated)), g) ptext o f d h =
      elim (Result-cases (promote_old_session idx updated r)) [
        | inr (e, bad) ↦ ground (arith, bad)
        | inl (r', good) ↦
            let same : o.sessions ≡ r' = ground (arith, good) in
            let (formed, current) = promote_old_session-WellFormed idx updated r d.formed f good in
            subst (Renewed m) (sym same)
              (record { state = updated; current = current; decrypted = d; formed = formed })
      ]

  conclude-Renewed :
      (r : SessionRecord) (x : Result Bytes × Working) (ptext : Bytes) (o : Opened)
      → RecordWellFormed r
      → ((text : Bytes) (w : Working) → x ≡ (ok text, w) → Decrypted m w.state)
      → conclude m r x ≡ (ok ptext, o)
      → Renewed m o.sessions
  unfolding set_session_state
  conclude-Renewed r (ok text, w) ptext o f good h =
      let d = good text w refl in
      let same : o.sessions ≡ set_session_state w.state r = ground arith in
      subst (Renewed m) (sym same) (record {
        state = w.state;
        current = refl;
        decrypted = d;
        formed = record { current = d.formed; previous = f.previous; archived = f.archived };
      })
  conclude-Renewed r (err (duplicated_message i c), w) ptext o f good h = cc
  conclude-Renewed r (err e, w) ptext o f good h =
      promote-Renewed r (try_previous m r.previous_sessions w.csprng) ptext o f
        (try_previous-HitDecrypted r.previous_sessions w.csprng f.previous) h

  -- After a well-formed record has decrypted a message, of a counter whose successor does not wrap
  -- and with a ratchet key of 32 bytes, the current session is the one that decrypted the message,
  -- with no key left for it, and the record is well-formed.
  pub decrypt_message_with_record-Renewed :
      (o o' : Opened) (ptext : Bytes)
      → RecordWellFormed o.sessions
      → decrypt_message_with_record m o ≡ (ok ptext, o')
      → Renewed m o'.sessions
  unfolding decrypt_message_with_record session_state
  decrypt_message_with_record-Renewed o o' ptext f h =
      elim (Option-cases o.sessions.current_session) [
        | inl no_session ↦ ground (arith, no_session)
        | inr (current, there) ↦
            let w : Working = record { state = current; csprng = o.csprng } in
            conclude-Renewed o.sessions (decrypt_message_with_state m w) ptext o' f
              (λ text w' e.
                decrypt_message_with_state-Decrypted laws m sized fits w w' text
                  (rw there at f.current) e)
              (rw (there, decrypt_message_with_record) at h)
      ]

  -- A message that a well-formed record has decrypted, of a counter whose successor does not wrap and
  -- with a ratchet key of 32 bytes, is refused as a duplicate when it comes again, and the record
  -- stays as it is.
  pub decrypt_message_with_record_twice :
      (o o' : Opened) (ptext : Bytes)
      → RecordWellFormed o.sessions
      → decrypt_message_with_record m o ≡ (ok ptext, o')
      → (index : ℕ) × (decrypt_message_with_record m o'
          ≡ (err (duplicated_message index m.counter), o'))
  unfolding decrypt_message_with_record session_state
  decrypt_message_with_record_twice o o' ptext f h =
      let n = decrypt_message_with_record-Renewed o o' ptext f h in
      let w : Working = record { state = n.state; csprng = o'.csprng } in
      (
        n.decrypted.spent.key.index,
        rw (n.current, Decrypted-duplicated laws m sized fits w n.decrypted),
      )
