-- ===== src/Common/Mapped.antt =====
-- Lists and options under a function.
use mathlib.Core.Path.{◌≡◌, refl, ap}
use mathlib.Core.List.{List, [], ◌∷◌, map}
use mathlib.Core.Option
use mathlib.Core.Option.{Option, none, some}
use Prim.Native.Nat.{ℕ, zero, suc}
use libsignal_client.Common.Lists.{length, take, drop, remove_at}

-- Mapping and mapping back.
module _ {ℓ κ} {A : Type ℓ} {B : Type κ} (f : A → B) (g : B → A)
    (inverse : (a : A) → g (f a) ≡ a) where
  pub map-map : (l : List A) → map g (map f l) ≡ l
  map-map [] = refl
  map-map (a ∷ l) = rw (inverse a, map-map l)

  pub Option_map-map : (o : Option A) → Option.map g (Option.map f o) ≡ o
  Option_map-map none = refl
  Option_map-map (some a) = ap some (inverse a)

module _ {ℓ κ} {A : Type ℓ} {B : Type κ} (f : A → B) where
  pub length-map : (l : List A) → length (map f l) ≡ length l
  length-map [] = refl
  length-map (a ∷ l) = ap suc (length-map l)

  pub map-take : (n : ℕ) (l : List A) → map f (take n l) ≡ take n (map f l)
  unfolding take
  map-take zero l = refl
  map-take (suc n) [] = refl
  map-take (suc n) (a ∷ l) = rw (map-take n l)

  pub map-remove_at : (l : List A) (i : ℕ) → map f (remove_at l i) ≡ remove_at (map f l) i
  unfolding remove_at
  map-remove_at [] i = refl
  map-remove_at (a ∷ l) zero = refl
  map-remove_at (a ∷ l) (suc i) = rw (map-remove_at l i)

  pub map-drop : (n : ℕ) (l : List A) → map f (drop n l) ≡ drop n (map f l)
  unfolding drop
  map-drop zero l = refl
  map-drop (suc n) [] = refl
  map-drop (suc n) (a ∷ l) = map-drop n l
