-- ===== src/State/Session/WellFormed.antt =====
-- The invariant of a session's receiver chains, and the operations that keep it.
use libsignal_client.Common.{
  ℕ, zero, suc, ◌≤◌, ◌<◌, ◌≡◌, refl, inl, inr, Option, none, some, List, [], ◌∷◌, ◌++◌, arith,
  length, remove_at, All, All-set, All-append, All-remove_at, length-set, length-append,
  length-remove_at, ltb, Bool-cases, ltb→lt,
}
use libsignal_client.Consts.{max_message_keys, max_receiver_chains}
use libsignal_client.Error.{ok}
use libsignal_client.Curve.PublicKey.{PublicKey, IsKey, serialize, deserialize-serialize}
use libsignal_client.Common.Bytes.{bytes_eq_refl}
use libsignal_client.Proto.Storage
use libsignal_client.Proto.Storage.{Chain, MessageKey}
use libsignal_client.Ratchet.ChainKey.{ChainKey}
use libsignal_client.State.Session.{
  SessionState, find_chain, get_receiver_chain, add_receiver_chain, push_chain, store_chain_key,
}
use libsignal_client.State.Session.Chains.{with_chain}
use libsignal_client.State.Session.Stored.{Descending}

-- The keys that a chain keeps lie behind the chain, in order.
abbrev pub BehindKey : Option Storage.ChainKey → List MessageKey → Type 0
BehindKey none ks = Unit {0}
BehindKey (some k) ks = Descending k.index ks

abbrev pub IsOrdered : Chain → Type 0
IsOrdered c = BehindKey c.chain_key c.message_keys × (length c.message_keys ≤ max_message_keys)

pub record WellFormed (s : SessionState) : Type 0 where
  pub few : length s.receiver_chains ≤ max_receiver_chains
  pub chains : All IsOrdered s.receiver_chains

All-find_chain :
    (sender : PublicKey) (chains : List Chain) (c : Chain) (i : ℕ)
    → find_chain sender chains ≡ ok (some (c, i))
    → All IsOrdered chains
    → IsOrdered c
unfolding find_chain
All-find_chain sender [] c i h a = cc
All-find_chain sender (x ∷ xs) c zero h a = let e : c ≡ x = ground arith in rw e a.0
All-find_chain sender (x ∷ xs) c (suc i) h a = All-find_chain sender xs c i (ground arith) a.1

pub get_receiver_chain-IsOrdered :
    (sender : PublicKey) (s : SessionState) (c : Chain) (i : ℕ)
    → get_receiver_chain sender s ≡ ok (some (c, i))
    → WellFormed s
    → IsOrdered c
unfolding get_receiver_chain
get_receiver_chain-IsOrdered sender s c i h w =
    All-find_chain sender s.receiver_chains c i h w.chains

pub with_chain-WellFormed :
    (s : SessionState) (i : ℕ) (c : Chain)
    → WellFormed s
    → IsOrdered c
    → WellFormed (with_chain s i c)
with_chain-WellFormed s i c w o = record {
  few = omega (arith, length-set s.receiver_chains i c, w.few);
  chains = All-set IsOrdered s.receiver_chains i c o w.chains;
}

module _ (c : Chain) (chains : List Chain) where
  abbrev more : List Chain
  more = chains ++ c ∷ []

  length-push_chain :
      length chains ≤ max_receiver_chains → length (push_chain c chains) ≤ max_receiver_chains
  unfolding push_chain
  length-push_chain h = ground (arith, length-append chains (c ∷ []), length-remove_at more 0)

  push_chain-All : IsOrdered c → All IsOrdered chains → All IsOrdered (push_chain c chains)
  unfolding push_chain
  push_chain-All o a =
      let all = All-append IsOrdered chains (c ∷ []) a (o, tt) in
      elim (Bool-cases (ltb max_receiver_chains (length more))) [
        | inl full ↦ rw full (All-remove_at IsOrdered more 0 all)
        | inr fits ↦ rw fits all
      ]

-- Also when the oldest chain is dropped, the session keeps at most the limit.
pub add_receiver_chain-WellFormed :
    (sender : PublicKey) (k : ChainKey) (s : SessionState)
    → WellFormed s
    → WellFormed (add_receiver_chain sender k s)
unfolding add_receiver_chain
add_receiver_chain-WellFormed sender k s w = record {
  few = length-push_chain _ s.receiver_chains w.few;
  chains = push_chain-All _ s.receiver_chains (tt, omega arith) w.chains;
}

-- The chain that was added is the one that is found, if none was before.
find_chain-snoc :
    (sender : PublicKey) (chains : List Chain) (c : Chain)
    → IsKey sender
    → find_chain sender chains ≡ ok none
    → c.sender_ratchet_key ≡ serialize sender
    → (i : ℕ) × (find_chain sender (chains ++ c ∷ []) ≡ ok (some (c, i)))
unfolding find_chain
find_chain-snoc sender [] c sized h e =
    (0, ground (arith, deserialize-serialize sender sized, bytes_eq_refl (serialize sender)))
find_chain-snoc sender (x ∷ xs) c sized h e =
    let (i, rest) = find_chain-snoc sender xs c sized (ground arith) e in
    (suc i, ground (arith, rest))

find_chain-tail :
    (sender : PublicKey) (chains : List Chain)
    → find_chain sender chains ≡ ok none
    → find_chain sender (remove_at chains 0) ≡ ok none
unfolding find_chain remove_at
find_chain-tail sender [] h = refl
find_chain-tail sender (x ∷ xs) h = ground arith

remove_at-snoc :
    (chains : List Chain) (c : Chain)
    → max_receiver_chains < length (chains ++ c ∷ [])
    → remove_at (chains ++ c ∷ []) 0 ≡ remove_at chains 0 ++ c ∷ []
unfolding remove_at
remove_at-snoc [] c h = absurd (omega arith)
remove_at-snoc (x ∷ xs) c h = refl

find_chain-push_chain :
    (sender : PublicKey) (chains : List Chain) (c : Chain)
    → IsKey sender
    → find_chain sender chains ≡ ok none
    → c.sender_ratchet_key ≡ serialize sender
    → (i : ℕ) × (find_chain sender (push_chain c chains) ≡ ok (some (c, i)))
unfolding push_chain
find_chain-push_chain sender chains c sized h e =
    elim (Bool-cases (ltb max_receiver_chains (length (chains ++ c ∷ [])))) [
      | inl full ↦
          rw (full, remove_at-snoc chains c (ltb→lt 5 (length (chains ++ c ∷ [])) full))
            (find_chain-snoc sender (remove_at chains 0) c sized (find_chain-tail sender chains h)
              e)
      | inr fits ↦ rw fits (find_chain-snoc sender chains c sized h e)
    ]

pub get_receiver_chain-add_receiver_chain :
    (sender : PublicKey) (k : ChainKey) (s : SessionState)
    → IsKey sender
    → get_receiver_chain sender s ≡ ok none
    → (c : Chain) × (i : ℕ) × (get_receiver_chain sender (add_receiver_chain sender k s)
        ≡ ok (some (c, i)))
      × (c.chain_key ≡ some (store_chain_key k))
      × (c.message_keys ≡ [])
unfolding get_receiver_chain add_receiver_chain
get_receiver_chain-add_receiver_chain sender k s sized h =
    let c : Chain = record {
      sender_ratchet_key = serialize sender;
      sender_ratchet_key_private = [];
      chain_key = some (store_chain_key k);
      message_keys = [];
    } in
    let (i, f) = find_chain-push_chain sender s.receiver_chains c sized h refl in
    (c, i, f, refl, refl)
