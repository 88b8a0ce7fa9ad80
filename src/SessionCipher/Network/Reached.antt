-- ===== src/SessionCipher/Network/Reached.antt =====
-- What holds in every state that the network reaches.
use libsignal_client.Common.{
  ℕ, suc, ◌+◌, ◌≡◌, ◌∙◌, refl, ap, some, List, [], ◌∷◌, length, get_elem?, All, arith,
}
use libsignal_client.Common.Bytes.{Bytes}
use libsignal_client.Error.{Result, ok}
use libsignal_client.Primitives.{Primitives, Lawful}
use libsignal_client.Curve.PublicKey.{PublicKey}
use libsignal_client.Protocol.Wire.{Codec}
use libsignal_client.Protocol.Ciphertext.{CiphertextMessage}
use libsignal_client.Ratchet.ChainKey.{next_chain_key, length-next_chain_key}
use libsignal_client.State.Session.{
  SessionState, session_version, local_identity_key, remote_identity_key, set_sender_chain_key,
}
use libsignal_client.SessionCipher.Decrypt.{decrypt_message_with_state}
use libsignal_client.SessionCipher.Encrypt.{encrypt_with_state}
use libsignal_client.SessionCipher.Encrypt.InStep.{
  get_sender_chain_key-set_sender_chain_key, sender_ratchet_key-set_sender_chain_key,
}
use libsignal_client.SessionCipher.Encrypt.Sent.{carried, encrypt_with_state-Sent}
use libsignal_client.SessionCipher.Keys.{Working}
use libsignal_client.SessionCipher.Network.Linked.{
  IsSealed, IsSealed-mono, end_of, Linked, InRange, All-get_elem?, Onward,
}
use libsignal_client.SessionCipher.Network.{Entry, Net, Step, send, arrive, Steps, here, next}
use libsignal_client.SessionCipher.Window.{receive}
use libsignal_client.Window.{Window}
use libsignal_client.SessionCipher.Window.Relation.{Refines}
use libsignal_client.SessionCipher.Window.Kept.{next-receive}
use libsignal_client.SessionCipher.Window.Keys.{chain_key_at, next-chain_key_at}
use libsignal_client.SessionCipher.Window.Opens.{
  Line, Listens, Sealed, text_result, shape-Sealed, decrypt_message_with_state-receive,
}

module _ ⦃p : Primitives⦄ ⦃c : Codec⦄ (line : Line) (laws : Lawful p) where
  -- A message that is made in the state is sealed with the next key, which the sender moves past.
  pub send-Sealed :
      (n : Net) (e : Entry) (msg : CiphertextMessage) (s' : SessionState) (their : PublicKey)
      → encrypt_with_state e.text n.sender ≡ ok (msg, s', their)
      → carried msg ≡ some e.message
      → InRange line n
      → Linked line n
      → Sealed line e.message e.text (end_of line n)
        × (s'
            ≡ set_sender_chain_key
                (next_chain_key (chain_key_at line.origin (end_of line n)))
                n.sender)
  send-Sealed n e msg s' their h carries fits l =
      let (k, m, sent, carries', moved) = encrypt_with_state-Sent e.text n.sender msg s' their h in
      let is_key : k ≡ chain_key_at line.origin (end_of line n) = cc (sent.chain_key, l.sending) in
      let is_message : m ≡ e.message = cc (carries, carries') in
      let is_their : their ≡ line.receiver = cc (sent.remote_is, l.remote_is) in
      (
        record {
          from = n.sender;
          sent = rw (is_key, is_message, is_their) at sent;
          ratchet_is = l.ratchet_is;
          local_is = l.local_is;
          version_is = l.version_is;
          begun = omega arith;
          in_range = fits;
        },
        rw is_key at moved,
      )

  send-Linked :
      (n : Net) (e : Entry) (msg : CiphertextMessage) (s' : SessionState) (their : PublicKey)
      → encrypt_with_state e.text n.sender ≡ ok (msg, s', their)
      → carried msg ≡ some e.message
      → InRange line (record n { sender = s'; flight = e ∷ n.flight })
      → (l : Linked line n) → Onward line l (record n { sender = s'; flight = e ∷ n.flight })
  unfolding local_identity_key remote_identity_key session_version set_sender_chain_key
      next_chain_key
  send-Linked n e msg s' their h carries fits l =
      let t = line.origin.index + length n.flight in
      let key = chain_key_at line.origin t in
      let (sealed, moved') = send-Sealed n e msg s' their h carries (omega (arith, fits)) l in
      let sum : suc t ≡ line.origin.index + suc (length n.flight) = omega arith in
      let written =
        get_sender_chain_key-set_sender_chain_key n.sender (next_chain_key key) l.sending refl
          (length-next_chain_key laws key) in
      let same =
        sender_ratchet_key-set_sender_chain_key n.sender (next_chain_key key) l.sending refl
          (length-next_chain_key laws key) in
      rw moved' (
        record {
          sending =
              written
              ∙ ap ok (
                  next-chain_key_at line.origin t (omega arith)
                  ∙ ap (λ n. chain_key_at line.origin n) sum);
          ratchet_is = rw same l.ratchet_is;
          local_is = l.local_is;
          remote_is = l.remote_is;
          version_is = l.version_is;
          sealed = (
            (t, omega arith, sealed),
            IsSealed-mono line t (line.origin.index + suc (length n.flight)) n.flight (omega arith)
                l.sealed,
          );
          window = l.window;
          listens = l.listens;
          behind = omega (arith, l.behind);
        },
        omega arith,
      )

  arrive-Linked :
      (n : Net) (i : ℕ) (e : Entry) (result : Result Bytes) (receiver' : Working)
      → get_elem? n.flight i ≡ some e
      → decrypt_message_with_state e.message n.receiver ≡ (result, receiver')
      → (l : Linked line n) → Onward line l (record n { receiver = receiver' })
  arrive-Linked n i e result receiver' at h l =
      let (t, before, sealed) = All-get_elem? line (end_of line n) n.flight i l.sealed at in
      let (g', done, listens) =
        decrypt_message_with_state-receive line laws sealed l.window n.receiver l.listens in
      let is : g' ≡ receiver' = cc (h, done) in
      let (onward, behind) = next-receive t l.window (end_of line n) l.behind before in
      (
        record {
          sending = l.sending;
          ratchet_is = l.ratchet_is;
          local_is = l.local_is;
          remote_is = l.remote_is;
          version_is = l.version_is;
          sealed = l.sealed;
          window = (receive t l.window).1;
          listens = rw is at listens;
          behind = behind;
        },
        onward,
      )

  pub Step-Linked :
      {n n' : Net} → Step n n' → InRange line n' → (l : Linked line n) → Onward line l n'
  Step-Linked (send n e h carries) fits l = send-Linked n e _ _ _ h carries fits l
  Step-Linked (arrive n i at h) fits l = arrive-Linked n i _ _ _ at h l

  Step-InRange : {n n' : Net} → Step n n' → InRange line n' → InRange line n
  Step-InRange (send n e h carries) fits = omega arith
  Step-InRange (arrive n i at h) fits = fits

  pub Steps-Linked :
      {start n : Net} (l : Linked line start) → Steps start n → InRange line n → Onward line l n
  Steps-Linked l here fits = (l, omega arith)
  Steps-Linked l (next steps step) fits =
      let (l', onward) = Steps-Linked l steps (Step-InRange step fits) in
      let (l'', onward') = Step-Linked step fits l' in (l'', omega (arith, onward, onward'))

  answers :
      (w : Window) (g : Working) (end : ℕ) (es : List Entry)
      → Listens line w g.state
      → All (IsSealed line end) es
      → All
          (λ (e : Entry).
            (decrypt_message_with_state e.message g).0
            ≡ text_result e.text e.message.counter w (receive e.message.counter w).0)
          es
  answers w g end [] l all = tt
  answers w g end (e ∷ es) l ((t, before, sealed), all) =
      let (g', done, _) = decrypt_message_with_state-receive line laws sealed w g l in
      (rw (done, (shape-Sealed line laws sealed).1), answers w g end es l all)

  -- From a sender and a receiver at the two ends of a chain, whatever is sent and whichever
  -- messages arrive, in any order and any number of times, as long as the counters do not wrap:
  -- the receiver is at a window of the chain, at which each message that was ever sent is
  -- decrypted to its text if the window opens it, and refused with the window's error if not.
  pub answers-Steps :
      {start n : Net}
      → Linked line start
      → Steps start n
      → InRange line n
      → (w : Window) × Refines line.ratchet line.origin w n.receiver.state
        × All
            (λ (e : Entry).
              (decrypt_message_with_state e.message n.receiver).0
              ≡ text_result e.text e.message.counter w (receive e.message.counter w).0)
            n.flight
  answers-Steps {start} {n} l steps fits =
      let (l', _) = Steps-Linked l steps fits in
      (l'.window, l'.listens.refines, answers l'.window _ (end_of line n) _ l'.listens l'.sealed)
