-- ===== src/SessionCipher/Network/Linked.antt =====
-- A sender and a receiver at the two ends of a chain.
use libsignal_client.Common.{
  ℕ, zero, suc, ◌+◌, ◌≤◌, ◌<◌, ◌≡◌, subst, some, List, [], ◌∷◌, length, get_elem?, All, arith,
}
use libsignal_client.Error.{ok}
use libsignal_client.Primitives.{Primitives}
use libsignal_client.Protocol.Wire.{Codec}
use libsignal_client.Ratchet.ChainKey.{u32_mod}
use libsignal_client.State.Session.{
  get_sender_chain_key, sender_ratchet_key, session_version, local_identity_key,
  remote_identity_key,
}
use libsignal_client.SessionCipher.Network.{Entry, Net}
use libsignal_client.Window.{Window}
use libsignal_client.SessionCipher.Window.Keys.{chain_key_at}
use libsignal_client.SessionCipher.Window.Opens.{Line, Listens, Sealed}

module _ ⦃p : Primitives⦄ ⦃c : Codec⦄ (line : Line) where
  abbrev pub IsSealed : ℕ → Entry → Type 0
  IsSealed end e = (t : ℕ) × (t < end) × Sealed line e.message e.text t

  pub IsSealed-mono :
      (m n : ℕ) (es : List Entry) → m ≤ n → All (IsSealed m) es → All (IsSealed n) es
  IsSealed-mono m n [] h all = tt
  IsSealed-mono m n (e ∷ es) h ((t, before, sealed), all) =
      ((t, omega arith, sealed), IsSealed-mono m n es h all)

  -- The counter of the next message that is sent.
  abbrev pub end_of : Net → ℕ
  end_of n = line.origin.index + length n.flight

  -- The sender's chain is as many steps from its beginning as messages were sent, each message was
  -- made with a key of the chain, and the receiver is at some window of it.
  pub record Linked (n : Net) : Type 0 where
    pub sending : get_sender_chain_key n.sender ≡ ok (chain_key_at line.origin (end_of n))
    pub ratchet_is : sender_ratchet_key n.sender ≡ ok line.ratchet
    pub local_is : local_identity_key n.sender ≡ ok line.sender
    pub remote_is : remote_identity_key n.sender ≡ ok (some line.receiver)
    pub version_is : session_version n.sender ≡ line.version
    pub sealed : All (IsSealed (end_of n)) n.flight
    pub window : Window
    pub listens : Listens line window n.receiver.state
    pub behind : window.next ≤ end_of n

  abbrev pub InRange : Net → Type 0
  InRange n = end_of n + 1 < u32_mod

  pub All-get_elem? :
      (end : ℕ) (es : List Entry) (i : ℕ) {e : Entry}
      → All (IsSealed end) es
      → get_elem? es i ≡ some e
      → IsSealed end e
  unfolding get_elem?
  All-get_elem? end [] i all h = cc
  All-get_elem? end (x ∷ es) zero all h = subst (IsSealed end) (cc h) all.0
  All-get_elem? end (x ∷ es) (suc i) all h = All-get_elem? end es i all.1 h

  -- A later state, whose window has not gone back.
  abbrev pub Onward : {n : Net} → Linked n → Net → Type 0
  Onward l n' = (l' : Linked n') × (l.window.next ≤ l'.window.next)
