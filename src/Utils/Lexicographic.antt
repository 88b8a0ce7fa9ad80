-- ===== src/Utils/Lexicographic.antt =====
-- `constant_time_cmp` of rust/protocol/src/utils.rs is the lexicographic order of byte strings, the
-- shorter one first.
use Prim.Native.Nat.{Ordering, compare}
use libsignal_client.Common.{
  ℕ, zero, suc, ◌+◌, ◌-◌, ◌<◌, ◌≡◌, refl, ap, ◌∙◌, Bool, true, ◌&&◌, [], ◌∷◌, length, take,
  take_all, All, arith, inl, inr, Bool-cases, ltb→le, false, ltb, ◌==◌, if◌then◌else◌,
}
use libsignal_client.Common.Bits.{all_below, all_below_sound}
use libsignal_client.Common.Bytes.{Bytes, byte_at, IsByte}
use libsignal_client.Utils.{
  ct_is_eq, ct_is_lt, ct_select, round, cmp_loop, ordering_of, constant_time_cmp,
}

-- The order of the first bytes that differ.
abbrev pub then_by : Ordering → Ordering → Ordering
then_by Ordering.lt later = Ordering.lt
then_by Ordering.eq later = later
then_by Ordering.gt later = Ordering.gt

abbrev pub lexicographic : Bytes → Bytes → Ordering
lexicographic [] [] = Ordering.eq
lexicographic [] (b ∷ y) = Ordering.lt
lexicographic (a ∷ x) [] = Ordering.gt
lexicographic (a ∷ x) (b ∷ y) = then_by (compare a b) (lexicographic x y)

-- The numbers by which the loop keeps an order.
abbrev code : Ordering → ℕ
code Ordering.lt = 1
code Ordering.eq = 0
code Ordering.gt = 255

abbrev mask_test : ℕ → ℕ → Bool
mask_test a b =
    ct_is_eq a b == (if a == b then 255 else 0) && ct_is_lt a b == (if ltb a b then 255 else 0)

abbrev mask_row : ℕ → Bool
unfolding all_below
mask_row a = all_below 256 (mask_test a)

mask_table : all_below 256 mask_row ≡ true
unfolding all_below mask_row ct_is_eq ct_is_lt
mask_table = refl

mask_at : (a b : ℕ) → IsByte a → IsByte b → mask_test a b ≡ true
unfolding mask_row
mask_at a b ha hb =
    all_below_sound 256 (mask_test a) b (all_below_sound 256 mask_row a mask_table ha) hb

masks :
    (a b : ℕ)
    → IsByte a
    → IsByte b
    → (ct_is_eq a b ≡ (if a == b then 255 else 0)) × (ct_is_lt a b ≡ (if ltb a b then 255 else 0))
masks a b ha hb = ground (arith, mask_at a b ha hb)

-- A byte mask for a test on an order.
select_code :
    (c o : Ordering)
    → ct_select
        (if (elim c [ Ordering.eq ↦ true | _ ↦ false ]) then 255 else 0)
        (code o)
        (ct_select (if (elim c [ Ordering.lt ↦ true | _ ↦ false ]) then 255 else 0) 1 255)
      ≡ code (then_by c o)
unfolding ct_select
select_code Ordering.lt Ordering.lt = refl
select_code Ordering.lt Ordering.eq = refl
select_code Ordering.lt Ordering.gt = refl
select_code Ordering.eq Ordering.lt = refl
select_code Ordering.eq Ordering.eq = refl
select_code Ordering.eq Ordering.gt = refl
select_code Ordering.gt Ordering.lt = refl
select_code Ordering.gt Ordering.eq = refl
select_code Ordering.gt Ordering.gt = refl

-- One round prefers the bytes of the round to what came before.
round-code :
    (a b : ℕ)
    → IsByte a
    → IsByte b
    → (o : Ordering) → round (code o) a b ≡ code (then_by (compare a b) o)
unfolding round
round-code a b ha hb o =
    let (equal, less) = masks a b ha hb in rw (equal, less) (select_code (compare a b) o)

-- The rounds from the last bytes to the first.
abbrev fold_with : ℕ → Bytes → Bytes → ℕ
fold_with result [] y = result
fold_with result (a ∷ x) [] = result
fold_with result (a ∷ x) (b ∷ y) = round (fold_with result x y) a b

fold_with-take :
    (n result : ℕ) (x y : Bytes)
    → n < length x
    → n < length y
    → fold_with (round result (byte_at n x) (byte_at n y)) (take n x) (take n y)
      ≡ fold_with result (take (suc n) x) (take (suc n) y)
unfolding take byte_at
fold_with-take n result [] y h h' = elim h [ ]
fold_with-take n result (a ∷ x) [] h h' = elim h' [ ]
fold_with-take zero result (a ∷ x) (b ∷ y) h h' = refl
fold_with-take (suc n) result (a ∷ x) (b ∷ y) h h' =
    ap (λ (t : ℕ). round t a b) (fold_with-take n result x y (omega arith) (omega arith))

cmp_loop-fold_with :
    (n i result : ℕ) (x y : Bytes)
    → n + i ≡ length x
    → length y ≡ length x
    → cmp_loop n i result x y ≡ fold_with result (take n x) (take n y)
unfolding cmp_loop take
cmp_loop-fold_with zero i result x y h e = refl
cmp_loop-fold_with (suc n) i result x y h e =
    let last : length x - 1 - i ≡ n = omega arith in
    rw last (
      cmp_loop-fold_with n (suc i) (round result (byte_at n x) (byte_at n y)) x y (omega arith) e
      ∙ fold_with-take n result x y (omega arith) (omega arith))

fold_with-lexicographic :
    (x y : Bytes)
    → length y ≡ length x
    → All IsByte x
    → All IsByte y
    → fold_with 0 x y ≡ code (lexicographic x y)
fold_with-lexicographic [] [] e hx hy = refl
fold_with-lexicographic [] (b ∷ y) e hx hy = absurd (omega arith)
fold_with-lexicographic (a ∷ x) [] e hx hy = absurd (omega arith)
fold_with-lexicographic (a ∷ x) (b ∷ y) e hx hy =
    rw (fold_with-lexicographic x y (omega arith) hx.1 hy.1)
      (round-code a b hx.0 hy.0 (lexicographic x y))

ordering_of-code : (o : Ordering) → ordering_of (code o) ≡ o
ordering_of-code Ordering.lt = refl
ordering_of-code Ordering.eq = refl
ordering_of-code Ordering.gt = refl

-- The shorter string first, and strings of one length by their first bytes that differ.
abbrev pub shortlex : Bytes → Bytes → Ordering
shortlex x y =
    if ltb (length x) (length y)
    then Ordering.lt
    else if ltb (length y) (length x)
    then Ordering.gt
    else lexicographic x y

-- On byte strings the comparison by masks, from the last byte to the first, is the order that puts
-- the shorter string first, and strings of one length by the first bytes that differ.
pub constant_time_cmp-shortlex :
    (x y : Bytes) → All IsByte x → All IsByte y → constant_time_cmp x y ≡ shortlex x y
unfolding constant_time_cmp
constant_time_cmp-shortlex x y hx hy = elim (Bool-cases (ltb (length x) (length y))) [
  | inl less ↦ rw less refl
  | inr no_less ↦ elim (Bool-cases (ltb (length y) (length x))) [
    | inl more ↦ rw (no_less, more) refl
    | inr no_more ↦
        let le = ltb→le (length x) (length y) no_less in
        let ge = ltb→le (length y) (length x) no_more in
        let same : length y ≡ length x = omega arith in
        rw
          (
            no_less,
            no_more,
            cmp_loop-fold_with (length x) 0 0 x y (omega arith) same,
            take_all x (length x) (omega arith),
            take_all y (length x) (omega arith),
            fold_with-lexicographic x y same hx hy,
          )
          (ordering_of-code (lexicographic x y))
  ]
]
