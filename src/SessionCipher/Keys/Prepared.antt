-- ===== src/SessionCipher/Keys/Prepared.antt =====
-- A chain that `get_or_create_chain_key` returns is ready for `get_or_create_message_key`.
use libsignal_client.Common.{◌≡◌, refl, inl, inr, none, some, arith, Option-cases, true}
use libsignal_client.Error.{ok}
use libsignal_client.Exec.{>>=-eq-ok as exec-eq-ok, query}
use libsignal_client.Primitives.{Primitives, Lawful}
use libsignal_client.Curve.PublicKey.{PublicKey, IsKey}
use libsignal_client.Curve.PrivateKey.{PrivateKey}
use libsignal_client.Kdf
use libsignal_client.Kdf.{derive_salted_secrets}
use libsignal_client.Ratchet.ChainKey.{ChainKey}
use libsignal_client.Ratchet.RootKey
use libsignal_client.Ratchet.RootKey.{RootKey, create_chain}
use libsignal_client.State.Session.{
  SessionState, get_receiver_chain, get_receiver_chain_key, root_key, set_root_key,
  add_receiver_chain, set_previous_counter, set_sender_chain, session_version, has_sender_chain,
  store_chain_key,
}
use libsignal_client.State.Session.WellFormed.{
  WellFormed, get_receiver_chain-IsOrdered, add_receiver_chain-WellFormed,
  get_receiver_chain-add_receiver_chain,
}
use libsignal_client.SessionCipher.Keys.{Working, on_state, or_create, get_or_create_chain_key}
use libsignal_client.SessionCipher.Keys.Replay.{Ready}
use libsignal_client.SessionCipher.Keys.Created.{
  read_chain_key-eq-ok, get_receiver_chain_key-eq-some, get_receiver_chain_key-eq-none,
  length-create_chain, Inputs, ratcheted, create_chain_key-eq-ok,
}

root_key-version :
    (s : SessionState) (r : RootKey) → root_key s ≡ ok r → Kdf.new (session_version s) ≡ ok r.kdf
unfolding root_key RootKey.new session_version
root_key-version s r h = ground arith

kdf-create_chain :
    ⦃p : Primitives⦄
    → (r : RootKey) (theirs : PublicKey) (ours : PrivateKey)
    → (create_chain r theirs ours).1.kdf ≡ r.kdf
unfolding create_chain
kdf-create_chain r theirs ours = refl

known-Ready :
    (sender : PublicKey) (k : ChainKey) (s : SessionState)
    → WellFormed s
    → get_receiver_chain_key sender s ≡ ok (some k)
    → Ready sender k s
unfolding store_chain_key
known-Ready sender k s w h =
    let (c, i, found, read) = get_receiver_chain_key-eq-some sender s k h in
    let (stored, version, sized) = read_chain_key-eq-ok (session_version s) c.chain_key k read in
    let (ordered, room) = get_receiver_chain-IsOrdered sender s c i found w in
    record {
      chain = c;
      place = i;
      found = found;
      stored = stored;
      version = version;
      sized = sized;
      ordered = rw stored at ordered;
      room = room;
    }

module _ ⦃p : Primitives⦄ (laws : Lawful p) (sender : PublicKey) (sized : IsKey sender)
    (w : Working) (before : WellFormed w.state) where
  ratcheted-WellFormed : (i : Inputs sender w) → WellFormed (ratcheted sender w i).state
  unfolding set_sender_chain set_previous_counter set_root_key
  ratcheted-WellFormed i =
      let added =
        add_receiver_chain-WellFormed sender (create_chain i.root sender i.ours).1 _
          (record { few = before.few; chains = before.chains }) in
      record { few = added.few; chains = added.chains }

  ratcheted-Ready :
      (i : Inputs sender w)
      → get_receiver_chain sender w.state ≡ ok none
      → Ready sender (create_chain i.root sender i.ours).1 (ratcheted sender w i).state
  unfolding set_sender_chain set_previous_counter set_root_key get_receiver_chain add_receiver_chain
      session_version
  ratcheted-Ready i missing =
      let k = (create_chain i.root sender i.ours).1 in
      let (c, place, found, stored, no_keys) =
        get_receiver_chain-add_receiver_chain sender k w.state sized missing in
      record {
        chain = c;
        place = place;
        found = found;
        stored = stored;
        version =
            rw (kdf-create_chain i.root sender i.ours) (root_key-version w.state i.root i.root_is);
        sized = length-create_chain laws i.root sender i.ours;
        ordered = rw no_keys tt;
        room = rw no_keys (omega arith);
      }

  -- After a call that succeeds the chain is ready, and the session as well-formed as before. It
  -- has kept its version, and the sending chain is there if it was.
  pub record Prepared (k : ChainKey) (w' : Working) : Type 0 where
    pub ready : Ready sender k w'.state
    pub formed : WellFormed w'.state
    pub version : session_version w'.state ≡ session_version w.state
    pub sending : has_sender_chain w.state ≡ true → has_sender_chain w'.state ≡ true

  created-Prepared :
      (i : Inputs sender w)
      → get_receiver_chain sender w.state ≡ ok none
      → Prepared (create_chain i.root sender i.ours).1 (ratcheted sender w i)
  unfolding set_sender_chain set_previous_counter set_root_key add_receiver_chain session_version
      has_sender_chain
  created-Prepared i missing = record {
    ready = ratcheted-Ready i missing;
    formed = ratcheted-WellFormed i;
    version = refl;
    sending = λ h. refl;
  }

  same-Prepared :
      (k k' : ChainKey) (u u' : Working) → k ≡ k' → u ≡ u' → Prepared k' u' → Prepared k u
  same-Prepared k k' u u' e d x = rw (e, d) x

  stepped-Prepared :
      (k : ChainKey) (w' : Working)
      → get_receiver_chain sender w.state ≡ ok none
      → (i : Inputs sender w) × (k ≡ (create_chain i.root sender i.ours).1)
        × (w' ≡ ratcheted sender w i)
      → Prepared k w'
  stepped-Prepared k w' absent (i, is_key, is_state) =
      same-Prepared k (create_chain i.root sender i.ours).1 w' (ratcheted sender w i) is_key
        is_state (created-Prepared i absent)

  pub get_or_create_chain_key-Prepared :
      (k : ChainKey) (w' : Working) → get_or_create_chain_key sender w ≡ (ok k, w') → Prepared k w'
  unfolding get_or_create_chain_key
  get_or_create_chain_key-Prepared k w' h =
      let (o, u, known, rest) =
        exec-eq-ok (on_state (query (get_receiver_chain_key sender))) (or_create sender) w h in
      elim (Option-cases o) [
        | inl missing ↦
            let absent : get_receiver_chain_key sender w.state ≡ ok none = ground arith in
            stepped-Prepared k w' (get_receiver_chain_key-eq-none sender w.state absent)
              (create_chain_key-eq-ok sender w {k = k} {w' = w'} (ground (arith, missing)))
        | inr (k', there) ↦
            let present : get_receiver_chain_key sender w.state ≡ ok (some k') = ground arith in
            let key : k ≡ k' = ground (arith, there) in
            let state : w' ≡ w = ground (arith, there) in
            same-Prepared k k' w' w key state (record {
              ready = known-Ready sender k' w.state before present;
              formed = before;
              version = refl;
              sending = λ h. h;
            })
      ]
