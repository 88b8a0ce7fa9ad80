-- ===== src/Window/Within.antt =====
-- Counters between the beginning of a chain and an end.
use libsignal_client.Common.{
  ℕ, ◌≤◌, ◌<◌, ◌≡◌, subst, some, List, [], ◌∷◌, arith, All, ==_iff, Bool-cases, Option-cases, ◌==◌,
  inl, inr,
}
use libsignal_client.Window.{position}

abbrev pub Within : ℕ → ℕ → ℕ → Type 0
Within begin end t = (begin ≤ t) × (t < end)

module _ (begin : ℕ) where
  pub Within-mono :
      (m n : ℕ) (ks : List ℕ) → m ≤ n → All (Within begin m) ks → All (Within begin n) ks
  Within-mono m n [] h within = tt
  Within-mono m n (k ∷ ks) h within =
      ((within.0.0, omega (arith, within.0.1)), Within-mono m n ks h within.1)

  pub All-position :
      {end t : ℕ} (ks : List ℕ) (place : ℕ)
      → All (Within begin end) ks
      → position t ks ≡ some place
      → Within begin end t
  unfolding position
  All-position [] place within h = cc
  All-position {end} {t} (k ∷ ks) place within h = elim (Bool-cases (k == t)) [
    | inl same ↦ subst (Within begin end) ((==_iff k t).0 same) within.0
    | inr other ↦ elim (Option-cases (position t ks)) [
      | inl e ↦ cc (rw (other, e) at h)
      | inr (i, e) ↦ All-position ks i within.1 e
    ]
  ]
