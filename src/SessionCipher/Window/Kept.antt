-- ===== src/SessionCipher/Window/Kept.antt =====
-- The keys that a chain keeps, against the counters that a window keeps.
use mathlib.Core.Option
use libsignal_client.Common.{
  ℕ, zero, suc, ◌+◌, ◌-◌, ◌≤◌, ◌<◌, ◌≡◌, refl, ap, some, Option, List, [], ◌∷◌, map, arith, All,
  ==_iff, Bool-cases, Option-cases, ◌==◌, inl, inr, ltb, le→ltb, ltb→le,
}
use libsignal_client.Consts.{max_forward_jumps}
use libsignal_client.Primitives.{Primitives}
use libsignal_client.Proto.Storage.{MessageKey}
use libsignal_client.Ratchet.ChainKey.{ChainKey, u32_mod}
use libsignal_client.State.Session.{find_message_key}
use libsignal_client.SessionCipher.Window.{receive, counted}
use libsignal_client.SessionCipher.Window.Keys.{kept_at, index-kept_at}
use libsignal_client.Window.{Window, late, opened, position}
use libsignal_client.Window.Within.{Within, Within-mono}

module _ ⦃p : Primitives⦄ (origin : ChainKey) where
  abbrev pub found_at : ℕ → Option ℕ → Option (MessageKey × ℕ)
  found_at t place = Option.map (λ i. (kept_at origin t, i)) place

  -- The search of the source finds the key of the counter where the counter is.
  pub find_message_key-map :
      (end t : ℕ) (ks : List ℕ)
      → end < u32_mod
      → All (Within origin.index end) ks
      → find_message_key t (map (kept_at origin) ks) ≡ found_at t (position t ks)
  unfolding find_message_key position
  find_message_key-map end t [] fits within = refl
  find_message_key-map end t (k ∷ ks) fits within =
      let index =
        ap (λ i. i == t) (index-kept_at origin k within.0.0 (omega (arith, within.0.1))) in
      elim (Bool-cases (k == t)) [
        | inl same ↦ rw (index, same) (ap (λ x. some (kept_at origin x, 0)) ((==_iff k t).0 same))
        | inr other ↦
            rw (index, other, find_message_key-map end t ks fits within.1)
              (elim (Option-cases (position t ks)) [ inl e ↦ rw e | inr (i, e) ↦ rw e ])
      ]

  pub counted-Within :
      (n j : ℕ) → origin.index ≤ n → All (Within origin.index (n + j)) (counted n j)
  unfolding counted
  counted-Within n zero h = tt
  counted-Within n (suc j) h = (
    (omega arith, omega arith),
    Within-mono origin.index (n + j) (n + suc j) (counted n j) (omega arith) (counted-Within n j h),
  )

-- What the window expects next lies behind what was sent, and so it does afterwards.
pub next-receive :
    (t : ℕ) (w : Window) (end : ℕ)
    → w.next ≤ end
    → t < end
    → (w.next ≤ (receive t w).1.next) × ((receive t w).1.next ≤ end)
unfolding receive late
next-receive t w end behind before = elim (Bool-cases (ltb t w.next)) [
  | inl old ↦ elim (Option-cases (position t w.kept)) [
    | inl e ↦ rw (old, e) (omega arith, behind)
    | inr (i, e) ↦ rw (old, e) (omega arith, behind)
  ]
  | inr new ↦ elim (Bool-cases (ltb max_forward_jumps (t - w.next))) [
    | inl far ↦ rw (new, far) (omega arith, behind)
    | inr near ↦ rw (new, near) (omega (arith, ltb→le t w.next new), omega arith)
  ]
]

-- A message that is next, or ahead by no more than the limit, is opened.
pub receive-opened :
    (t : ℕ) (w : Window) → w.next ≤ t → t - w.next ≤ max_forward_jumps → (receive t w).0 ≡ opened
unfolding receive
receive-opened t w ahead near = rw (le→ltb t w.next ahead, le→ltb 2000 (t - w.next) near)
