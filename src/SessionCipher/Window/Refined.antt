-- ===== src/SessionCipher/Window/Refined.antt =====
-- `get_or_create_message_key` of rust/protocol/src/session_cipher.rs implements the window.
use libsignal_client.Common.{
  ℕ, ◌+◌, ◌-◌, ◌<◌, ◌≡◌, some, inl, inr, Bool-cases, Option-cases, ltb, ltb→lt, ltb→le,
}
use libsignal_client.Consts.{max_forward_jumps}
use libsignal_client.Error.{ok}
use libsignal_client.Primitives.{Primitives, Lawful}
use libsignal_client.Curve.PublicKey.{PublicKey}
use libsignal_client.Ratchet.ChainKey.{ChainKey, u32_mod}
use libsignal_client.State.Session.{SessionState, get_receiver_chain_key}
use libsignal_client.SessionCipher.Keys.{get_or_create_message_key}
use libsignal_client.SessionCipher.Window.{receive}
use libsignal_client.Window.{Window, position, late}
use libsignal_client.SessionCipher.Window.Keys.{chain_key_at}
use libsignal_client.SessionCipher.Window.Branches.{
  Implemented, Implemented-gone, Implemented-kept, Implemented-far, Implemented-ahead,
}
use libsignal_client.SessionCipher.Window.Relation.{
  Refines, Beside, result, get_receiver_chain_key-Refines,
}

module _ ⦃p : Primitives⦄ (sender : PublicKey) (origin : ChainKey) where
  -- For a session at a window of the sender's chain, and a message of any counter whose successor
  -- does not wrap: the chain key that is read is the one of the window's next counter, the search for
  -- the keys gives the key of the message's counter or the error that the window answers with, it
  -- writes to the receiving chains alone, and the new session is at the window's new state.
  pub get_or_create_message_key-receive :
      Lawful p
      → (counter : ℕ) → counter + 1 < u32_mod
      → (w : Window) (s : SessionState) → Refines sender origin w s
      → (s' : SessionState) × (get_receiver_chain_key sender s
          ≡ ok (some (chain_key_at origin w.next)))
        × (get_or_create_message_key sender (chain_key_at origin w.next) counter s
            ≡ (result sender origin counter w (receive counter w).0, s'))
        × Refines sender origin (receive counter w).1 s'
        × Beside s s'
  unfolding receive late
  get_or_create_message_key-receive laws counter in_range w s r =
      let known = get_receiver_chain_key-Refines sender origin r in
      let answered : Implemented sender origin laws counter in_range w s r (receive counter w) =
        elim (Bool-cases (ltb counter w.next)) [
          | inl before ↦ elim (Option-cases (position counter w.kept)) [
            | inl e ↦
                rw (before, e)
                  (Implemented-gone sender origin laws counter in_range w s r
                    (ltb→lt counter w.next before) e)
            | inr (i, e) ↦
                rw (before, e)
                  (Implemented-kept sender origin laws counter in_range w s r i
                    (ltb→lt counter w.next before) e)
          ]
          | inr behind ↦ elim (Bool-cases (ltb max_forward_jumps (counter - w.next))) [
            | inl far ↦
                rw (behind, far)
                  (Implemented-far sender origin laws counter in_range w s r
                    (ltb→le counter w.next behind) (ltb→lt 2000 (counter - w.next) far))
            | inr near ↦
                rw (behind, near)
                  (Implemented-ahead sender origin laws counter in_range w s r
                    (ltb→le counter w.next behind) (ltb→le 2000 (counter - w.next) near))
          ]
        ] in
      (answered.0, known, answered.1, answered.2, answered.3)
