-- ===== src/SessionCipher/Decrypt/Duplicate.antt =====
-- A session that has decrypted a message keeps its invariant, and takes the message no second time.
use libsignal_client.Common.{ℕ, ◌+◌, ◌<◌, ◌≡◌, sym, subst, true, arith, ◌==◌}
use libsignal_client.Common.Bytes.{Bytes}
use libsignal_client.Error.{Result, ok, err, duplicated_message}
use libsignal_client.Exec.{Exec, >>=-eq-ok}
use libsignal_client.Primitives.{Primitives, Lawful}
use libsignal_client.Curve.PublicKey.{IsKey}
use libsignal_client.Protocol.SignalMessage.{SignalMessage}
use libsignal_client.Ratchet.ChainKey.{ChainKey, u32_mod}
use libsignal_client.Proto.Storage.{Chain}
use libsignal_client.Ratchet.MessageKeys.{MessageKeys}
use libsignal_client.State.Session.{
  SessionState, has_sender_chain, session_version, clear_unacknowledged_pre_key_message,
  get_receiver_chain,
}
use libsignal_client.State.Session.Chains.{with_chain}
use libsignal_client.State.Session.WellFormed.{WellFormed, with_chain-WellFormed}
use libsignal_client.SessionCipher.Keys.{
  Working, on_state, get_or_create_chain_key, get_or_create_message_key,
}
use libsignal_client.SessionCipher.Keys.Replay.{
  Ready, Spent, Given, get_receiver_chain_key-Ready, get_or_create_message_key-Given,
  Spent-duplicated,
}
use libsignal_client.SessionCipher.Keys.Prepared.{Prepared, get_or_create_chain_key-Prepared}
use libsignal_client.SessionCipher.Decrypt.{check_session, open_message, decrypt_message_with_state}

-- What `check_session` tests.
pub record Accepts (m : SignalMessage) (s : SessionState) : Type 0 where
  pub sends : has_sender_chain s ≡ true
  pub version : (m.message_version == session_version s) ≡ true

module _ ⦃p : Primitives⦄ (m : SignalMessage) where
  check_session-eq-ok :
      (s t : SessionState) → check_session m s ≡ (ok tt, t) → Accepts m s × (t ≡ s)
  unfolding check_session
  check_session-eq-ok s t h =
      (record { sends = ground arith; version = ground arith }, ground arith)

  pub check_session-Accepts : (s : SessionState) → Accepts m s → check_session m s ≡ (ok tt, s)
  unfolding check_session
  check_session-Accepts s a = rw (a.sends, a.version)

  open_message-eq-ok :
      (keys : MessageKeys) (s t : SessionState) (ptext : Bytes)
      → open_message m keys s ≡ (ok ptext, t)
      → t ≡ clear_unacknowledged_pre_key_message s
  unfolding open_message
  open_message-eq-ok keys s t ptext h = ground arith

-- An action on the session alone, seen at the session.
pub on_state-eq :
    {A : Type 0} (f : Exec SessionState A) (w w' : Working) (r : Result A)
    → on_state f w ≡ (r, w')
    → f w.state ≡ (r, w'.state)
on_state-eq f w w' r h = λ i. ((h i).0, (h i).1.state)

-- What a successful decryption leaves behind: the session would pass the tests of the message
-- again, keeps its invariant, and has no key for the message.
pub record Decrypted (m : SignalMessage) (s : SessionState) : Type 0 where
  pub accepts : Accepts m s
  pub formed : WellFormed s
  pub spent : Spent m.sender_ratchet_key m.counter s

clear-Decrypted :
    (m : SignalMessage) (s : SessionState)
    → Decrypted m s
    → Decrypted m (clear_unacknowledged_pre_key_message s)
unfolding clear_unacknowledged_pre_key_message has_sender_chain session_version get_receiver_chain
clear-Decrypted m s d =
    let t = d.spent.ready in
    record {
      accepts = record { sends = d.accepts.sends; version = d.accepts.version };
      formed = record { few = d.formed.few; chains = d.formed.chains };
      spent = record {
        key = d.spent.key;
        ready = record {
          chain = t.chain;
          place = t.place;
          found = t.found;
          stored = t.stored;
          version = t.version;
          sized = t.sized;
          ordered = t.ordered;
          room = t.room;
        };
        past = d.spent.past;
        gone = d.spent.gone;
      };
    }

with_chain-Accepts :
    (m : SignalMessage) (s : SessionState) (i : ℕ) (c : Chain)
    → Accepts m s
    → Accepts m (with_chain s i c)
unfolding has_sender_chain session_version
with_chain-Accepts m s i c a = record { sends = a.sends; version = a.version }

module _ ⦃p : Primitives⦄ (laws : Lawful p) (m : SignalMessage) (sized : IsKey m.sender_ratchet_key)
    (fits : m.counter + 1 < u32_mod) where
  Given-Decrypted :
      (k : ChainKey) (s s' : SessionState) (r : Ready m.sender_ratchet_key k s)
      → Accepts m s
      → WellFormed s
      → Given m.sender_ratchet_key k m.counter s r fits s'
      → Decrypted m s'
  Given-Decrypted k s s' r a f g = record {
    accepts = rw g.written (with_chain-Accepts m s r.place g.chain' a);
    formed = rw g.written (with_chain-WellFormed s r.place g.chain' f g.ordered');
    spent = g.spent;
  }

  steps-Decrypted :
      (w : Working) (before : WellFormed w.state) (ptext : Bytes) (keys : MessageKeys)
      (k : ChainKey) (u v w' : Working)
      → Accepts m w.state
      → Prepared laws m.sender_ratchet_key sized w before k u
      → on_state (get_or_create_message_key m.sender_ratchet_key k m.counter) u ≡ (ok keys, v)
      → on_state (open_message m keys) v ≡ (ok ptext, w')
      → Decrypted m w'.state
  steps-Decrypted w before ptext keys k u v w' a r e f =
      let given =
        get_or_create_message_key-Given m.sender_ratchet_key k m.counter u.state r.ready fits laws (
          on_state-eq (get_or_create_message_key m.sender_ratchet_key k m.counter) u v (ok keys)
            e) in
      let accepts : Accepts m u.state = record {
        sends = r.sending a.sends;
        version = rw r.version a.version;
      } in
      rw
        (open_message-eq-ok m keys v.state w'.state ptext
          (on_state-eq (open_message m keys) v w' (ok ptext) f))
        (clear-Decrypted m v.state
          (Given-Decrypted k u.state v.state r.ready accepts r.formed given))

  pub decrypt_message_with_state-Decrypted :
      (w w' : Working) (ptext : Bytes)
      → WellFormed w.state
      → decrypt_message_with_state m w ≡ (ok ptext, w')
      → Decrypted m w'.state
  unfolding decrypt_message_with_state
  decrypt_message_with_state-Decrypted w w' ptext before h =
      let (_, w1, e1, h1) = >>=-eq-ok (on_state (check_session m)) _ w h in
      let (k, u, e2, h2) = >>=-eq-ok (get_or_create_chain_key m.sender_ratchet_key) _ w1 h1 in
      let (keys, v, e3, h3) =
        >>=-eq-ok (on_state (get_or_create_message_key m.sender_ratchet_key k m.counter)) _ u h2 in
      let (accepts, same) =
        check_session-eq-ok m w.state w1.state (on_state-eq (check_session m) w w1 (ok tt) e1) in
      let before1 : WellFormed w1.state = subst WellFormed (sym same) before in
      steps-Decrypted w1 before1 ptext keys k u v w' (subst (Accepts m) (sym same) accepts)
        (get_or_create_chain_key-Prepared laws m.sender_ratchet_key sized w1 before1 k u e2) e3 h3

  -- The same message again, at a session that a decryption of it left behind.
  pub Decrypted-duplicated :
      (w : Working) (d : Decrypted m w.state)
      → decrypt_message_with_state m w ≡ (err (duplicated_message d.spent.key.index m.counter), w)
  unfolding decrypt_message_with_state get_or_create_chain_key
  Decrypted-duplicated w d = rw (
    check_session-Accepts m w.state d.accepts,
    get_receiver_chain_key-Ready d.spent.ready,
    Spent-duplicated d.spent (omega arith),
  )
