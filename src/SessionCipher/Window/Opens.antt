-- ===== src/SessionCipher/Window/Opens.antt =====
-- `decrypt_message_with_state` of rust/protocol/src/session_cipher.rs on the messages of one chain,
-- in whatever order they come.
use libsignal_client.Common.{ℕ, ◌+◌, ◌%◌, ◌≤◌, ◌<◌, ◌≡◌, sym, subst, true, some, arith, ==_iff}
use libsignal_client.Common.Bytes.{Bytes}
use libsignal_client.Error.{
  Result, ok, err, duplicated_message, invalid_message, SignalProtocolError,
}
use libsignal_client.Primitives.{Primitives, Lawful}
use libsignal_client.Curve.PublicKey.{PublicKey}
use libsignal_client.Protocol.Wire.{Codec}
use libsignal_client.Protocol.SignalMessage.{SignalMessage, new-Made}
use libsignal_client.Ratchet.ChainKey.{ChainKey, u32_mod, message_keys}
use libsignal_client.State.Session.{
  SessionState, sender_ratchet_key, session_version, local_identity_key, remote_identity_key,
  has_sender_chain, clear_unacknowledged_pre_key_message, get_receiver_chain,
}
use libsignal_client.SessionCipher.Decrypt.{decrypt_message_with_state, open_message}
use libsignal_client.SessionCipher.Decrypt.Duplicate.{Accepts, check_session-Accepts}
use libsignal_client.SessionCipher.Decrypt.Steps.{known_version, run}
use libsignal_client.SessionCipher.Encrypt.Sent.{Sent, open_message-Sent}
use libsignal_client.SessionCipher.Keys.{
  Working, get_or_create_chain_key, get_or_create_message_key,
}
use libsignal_client.SessionCipher.Window.{receive}
use libsignal_client.Window.{Window, Answer, opened, duplicate, too_far}
use libsignal_client.SessionCipher.Window.Relation.{Refines, Beside, result}
use libsignal_client.SessionCipher.Window.Keys.{chain_key_at, index-chain_key_at}
use libsignal_client.SessionCipher.Window.Refined.{get_or_create_message_key-receive}

-- The result of a decryption for each answer of the window.
abbrev pub text_result : Bytes → ℕ → Window → Answer → Result Bytes
text_result ptext counter w opened = ok ptext
text_result ptext counter w duplicate = err (duplicated_message w.next counter)
text_result ptext counter w too_far = err (invalid_message "message from too far into the future")

-- Where the search for the keys fails, the decryption does.
run_fails :
    ⦃p : Primitives⦄
    → (m : SignalMessage) (w : Working) (s' : SessionState) (ratchet : PublicKey) {key : ChainKey}
      {e : SignalProtocolError}
    → m.sender_ratchet_key ≡ ratchet
    → Accepts m w.state
    → get_or_create_chain_key ratchet w ≡ (ok key, w)
    → get_or_create_message_key ratchet key m.counter w.state ≡ (err e, s')
    → decrypt_message_with_state m w ≡ (err e, record w { state = s' })
unfolding decrypt_message_with_state
run_fails m w s' ratchet {key} {e} from accepts reached found =
    let reached' = subst (λ x. get_or_create_chain_key x w ≡ (ok key, w)) (sym from) reached in
    let found' =
      subst (λ x. get_or_create_message_key x key m.counter w.state ≡ (err e, s')) (sym from)
        found in
    rw (check_session-Accepts m w.state accepts, reached', found')

-- A chain: the sender's ratchet key, the key that it begins with, the two identities and the
-- version of the session.
pub record Line : Type 0 where
  pub ratchet : PublicKey
  pub origin : ChainKey
  pub sender : PublicKey
  pub receiver : PublicKey
  pub version : ℕ

module _ ⦃p : Primitives⦄ (line : Line) where
  -- A session that receives the messages of the chain as the window says.
  pub record Listens (w : Window) (r : SessionState) : Type 0 where
    pub refines : Refines line.ratchet line.origin w r
    pub local_r : local_identity_key r ≡ ok line.receiver
    pub remote_r : remote_identity_key r ≡ ok (some line.sender)
    pub sends : has_sender_chain r ≡ true
    pub version : session_version r ≡ line.version

  Listens-Beside :
      {w w' : Window} {r r' : SessionState}
      → Listens w r
      → Refines line.ratchet line.origin w' r'
      → Beside r r'
      → Listens w' r'
  unfolding local_identity_key remote_identity_key has_sender_chain session_version
  Listens-Beside l refines e = record {
    refines = refines;
    local_r = rw e l.local_r;
    remote_r = rw e l.remote_r;
    sends = rw e l.sends;
    version = rw e l.version;
  }

  Listens-clear :
      {w : Window} {r : SessionState}
      → Listens w r
      → Listens w (clear_unacknowledged_pre_key_message r)
  unfolding clear_unacknowledged_pre_key_message local_identity_key remote_identity_key
      has_sender_chain session_version get_receiver_chain
  Listens-clear l = record {
    refines = record {
      chain = l.refines.chain;
      place = l.refines.place;
      found = l.refines.found;
      stored = l.refines.stored;
      keys = l.refines.keys;
      version = l.refines.version;
      sized = l.refines.sized;
      begun = l.refines.begun;
      fits = l.refines.fits;
      within = l.refines.within;
      room = l.refines.room;
    };
    local_r = l.local_r;
    remote_r = l.remote_r;
    sends = l.sends;
    version = l.version;
  }

module _ ⦃p : Primitives⦄ ⦃c : Codec⦄ (line : Line) where
  -- A message that the sender made of a text with the `t`-th key.
  pub record Sealed (m : SignalMessage) (ptext : Bytes) (t : ℕ) : Type 0 where
    pub from : SessionState
    pub sent : Sent ptext from (chain_key_at line.origin t) m line.receiver
    pub ratchet_is : sender_ratchet_key from ≡ ok line.ratchet
    pub local_is : local_identity_key from ≡ ok line.sender
    pub version_is : session_version from ≡ line.version
    pub begun : line.origin.index ≤ t
    pub in_range : t + 1 < u32_mod

  module _ (laws : Lawful p) {m : SignalMessage} {ptext : Bytes} {t : ℕ}
      (sealed : Sealed m ptext t) where
    pub shape-Sealed :
        (m.sender_ratchet_key ≡ line.ratchet)
        × (m.counter ≡ t)
        × (m.message_version ≡ line.version % 256)
    shape-Sealed =
        let sent = sealed.sent in
        let built =
          new-Made laws (session_version sealed.from % 256)
            (message_keys (chain_key_at line.origin t)).mac_key sent.ratchet
            (chain_key_at line.origin t).index sealed.from.previous_counter sent.ctext sent.local
            line.receiver sent.made in
        (
          rw built.fields (cc (sent.ratchet_key, sealed.ratchet_is)),
          rw built.fields
              (index-chain_key_at line.origin t sealed.begun (omega (arith, sealed.in_range))),
          rw (built.fields, sealed.version_is),
        )

    accepts : {w : Window} {r : SessionState} → Listens line w r → Accepts m r
    accepts {w} {r} l = record {
      sends = l.sends;
      version =
          (==_iff m.message_version (session_version r)).1 (
            rw (shape-Sealed.2, ← l.version) (known_version (session_version r) l.refines.version));
    }

    opens :
        {w : Window} {r : SessionState}
        → Listens line w r
        → open_message m (message_keys (chain_key_at line.origin t)) r
          ≡ (ok ptext, clear_unacknowledged_pre_key_message r)
    opens {w} {r} l =
        let is_local : line.sender ≡ sealed.sent.local =
          cc (sealed.local_is, sealed.sent.local_is) in
        open_message-Sent ptext sealed.from laws sealed.sent r (rw is_local at l.remote_r) l.local_r

    -- The steps of a decryption after the search for the keys.
    concluded :
        (w : Window) (g : Working) (s' : SessionState) (w' : Window) (answer : Answer)
        → Listens line w g.state
        → Listens line w' s'
        → get_or_create_chain_key line.ratchet g ≡ (ok (chain_key_at line.origin w.next), g)
        → get_or_create_message_key line.ratchet (chain_key_at line.origin w.next) m.counter g.state
          ≡ (result line.ratchet line.origin t w answer, s')
        → (g' : Working) × (decrypt_message_with_state m g ≡ (text_result ptext t w answer, g'))
          × Listens line w' g'.state
    concluded w g s' w' opened l l' reached found = (
      record g { state = clear_unacknowledged_pre_key_message s' },
      run m g g s' line.ratchet shape-Sealed.0 (accepts l) reached found (opens l'),
      Listens-clear line l',
    )
    concluded w g s' w' duplicate l l' reached found = (
      record g { state = s' },
      run_fails m g s' line.ratchet shape-Sealed.0 (accepts l) reached found,
      l',
    )
    concluded w g s' w' too_far l l' reached found = (
      record g { state = s' },
      run_fails m g s' line.ratchet shape-Sealed.0 (accepts l) reached found,
      l',
    )

    -- Whenever a message of the chain arrives, it is decrypted to its text if the window opens it
    -- and refused with the window's error if not, and the session goes on as the window does.
    pub decrypt_message_with_state-receive :
        (w : Window) (g : Working)
        → Listens line w g.state
        → (g' : Working) × (decrypt_message_with_state m g
            ≡ (text_result ptext t w (receive t w).0, g'))
          × Listens line (receive t w).1 g'.state
    unfolding get_or_create_chain_key
    decrypt_message_with_state-receive w g l =
        let (s', known, found, refines, beside) =
          get_or_create_message_key-receive line.ratchet line.origin laws t sealed.in_range w
            g.state l.refines in
        concluded w g s' (receive t w).1 (receive t w).0 l (Listens-Beside line l refines beside)
          (rw known) (rw (shape-Sealed.1) found)
