-- ===== src/Group/Window/Newest.antt =====
-- The last elements of a list.
use libsignal_client.Common.{
  ℕ, ◌+◌, ◌-◌, ◌≤◌, ◌≡◌, refl, List, ◌++◌, map, arith, length, drop, length-drop, length-append,
  drop-append_le, length-map, map-drop, drop-drop, All, All-drop, inl, inr, ltb, Bool-cases, ltb→lt,
  ltb→le,
}
use libsignal_client.Group.Window.{newest}

module _ {ℓ} {A : Type ℓ} where
  pub length-newest : (m : ℕ) (l : List A) → length (newest m l) ≤ m
  unfolding newest
  length-newest m l = omega (arith, length-drop (length l - m) l)

  pub newest_all : (m : ℕ) (l : List A) → length l ≤ m → newest m l ≡ l
  unfolding newest drop
  newest_all m l h = let e : length l - m ≡ 0 = omega arith in rw e

  newest_is : (m : ℕ) (l : List A) → newest m l ≡ drop (length l - m) l
  unfolding newest
  newest_is m l = refl

  newest-drop :
      (m j : ℕ) (l l' : List A) → j + m ≡ length l → newest m (drop j l ++ l') ≡ newest m (l ++ l')
  unfolding newest
  newest-drop m j l l' e =
      let same = drop-append_le j l l' (omega (arith, e)) in
      let size = length-drop j (l ++ l') in
      let whole = length-append l l' in
      let sum : j + (length (l ++ l') - j - m) ≡ length (l ++ l') - m = omega (arith, e, whole) in
      rw (← same, size, drop-drop (length (l ++ l') - j - m) j (l ++ l'), sum)

  -- Cutting at each step is cutting once.
  pub newest-append : (m : ℕ) (l l' : List A) → newest m (newest m l ++ l') ≡ newest m (l ++ l')
  newest-append m l l' = elim (Bool-cases (ltb m (length l))) [
    | inl more ↦
        rw (newest_is m l)
          (newest-drop m (length l - m) l l' (omega (arith, ltb→lt m (length l) more)))
    | inr all ↦ rw (newest_all m l (ltb→le m (length l) all))
  ]

pub map-newest {ℓ κ} :
    {A : Type ℓ} {B : Type κ} (f : A → B) (m : ℕ) (l : List A)
    → map f (newest m l) ≡ newest m (map f l)
unfolding newest
map-newest f m l = rw (map-drop f (length l - m) l, length-map f l)

pub All-newest {ℓ κ} :
    {A : Type ℓ} (P : A → Type κ) (m : ℕ) (l : List A) → All P l → All P (newest m l)
unfolding newest
All-newest P m l all = All-drop P (length l - m) l all
