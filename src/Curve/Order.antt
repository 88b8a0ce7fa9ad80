-- ===== src/Curve/Order.antt =====
-- The order of public keys, `impl Ord for PublicKey` of rust/protocol/src/curve.rs.
use Prim.Native.Nat.{Ordering}
use libsignal_client.Common.{
  ◌≡◌, ◌↔◌, refl, ap, sym, ◌∙◌, Option, some, [], ◌∷◌, length, All, arith, le→ltb,
}
use libsignal_client.Common.Bytes.{Bytes, IsByte}
use libsignal_client.Error.{KeyType, djb}
use libsignal_client.Curve.PublicKey.{PublicKey, IsKey}
use libsignal_client.Utils.{constant_time_cmp}
use libsignal_client.Utils.Lexicographic.{then_by, lexicographic, constant_time_cmp-shortlex}

unfoldable pub key_type : PublicKey → KeyType
key_type k = djb

-- The derived order of the one kind of key.
unfoldable pub key_type_cmp : KeyType → KeyType → Ordering
key_type_cmp djb djb = Ordering.eq

-- Keys of different kinds by their kinds, keys of one kind by their bytes.
unfoldable pub cmp : PublicKey → PublicKey → Ordering
unfolding key_type key_type_cmp
cmp self other =
    then_by (key_type_cmp (key_type self) (key_type other)) (constant_time_cmp self.key other.key)

unfoldable pub partial_cmp : PublicKey → PublicKey → Option Ordering
unfolding cmp
partial_cmp self other = some (cmp self other)

abbrev pub flip : Ordering → Ordering
flip Ordering.lt = Ordering.gt
flip Ordering.eq = Ordering.eq
flip Ordering.gt = Ordering.lt

lexicographic-flip : (x y : Bytes) → lexicographic y x ≡ flip (lexicographic x y)
lexicographic-flip [] [] = refl
lexicographic-flip [] (b ∷ y) = refl
lexicographic-flip (a ∷ x) [] = refl
lexicographic-flip (a ∷ x) (b ∷ y) = ground (arith, lexicographic-flip x y)

eq_of_lexicographic : (x y : Bytes) → lexicographic x y ≡ Ordering.eq → x ≡ y
eq_of_lexicographic [] [] h = refl
eq_of_lexicographic [] (b ∷ y) h = cc
eq_of_lexicographic (a ∷ x) [] h = cc
eq_of_lexicographic (a ∷ x) (b ∷ y) h = ground (arith, eq_of_lexicographic x y)

lexicographic_self : (x : Bytes) → lexicographic x x ≡ Ordering.eq
lexicographic_self [] = refl
lexicographic_self (a ∷ x) = ground (arith, lexicographic_self x)

lexicographic_trans :
    (x y z : Bytes)
    → lexicographic x y ≡ Ordering.lt
    → lexicographic y z ≡ Ordering.lt
    → lexicographic x z ≡ Ordering.lt
lexicographic_trans [] [] z h k = cc
lexicographic_trans [] (b ∷ y) [] h k = cc
lexicographic_trans [] (b ∷ y) (c ∷ z) h k = refl
lexicographic_trans (a ∷ x) [] z h k = cc
lexicographic_trans (a ∷ x) (b ∷ y) [] h k = cc
lexicographic_trans (a ∷ x) (b ∷ y) (c ∷ z) h k = ground (arith, lexicographic_trans x y z)

-- A key as its constructor checks it, made of bytes.
abbrev pub IsByteKey : PublicKey → Type 0
IsByteKey k = IsKey k × All IsByte k.key

cmp-lexicographic :
    (a b : PublicKey) → IsByteKey a → IsByteKey b → cmp a b ≡ lexicographic a.key b.key
unfolding cmp
cmp-lexicographic a b ha hb =
    rw
      (
        constant_time_cmp-shortlex a.key b.key ha.1 hb.1,
        le→ltb (length b.key) (length a.key) (omega (arith, ha.0, hb.0)),
        le→ltb (length a.key) (length b.key) (omega (arith, ha.0, hb.0)),
      )
      refl

-- The comparison is a total order on keys of 32 bytes: it says equal exactly of equal keys, gives the
-- opposite answer when the keys change places, and is transitive.
pub cmp_order :
    (a b c : PublicKey)
    → IsByteKey a
    → IsByteKey b
    → IsByteKey c
    → ((cmp a b ≡ Ordering.eq) ↔ (a ≡ b))
      × (cmp b a ≡ flip (cmp a b))
      × (cmp a b ≡ Ordering.lt → cmp b c ≡ Ordering.lt → cmp a c ≡ Ordering.lt)
cmp_order a b c ha hb hc =
    let ab = cmp-lexicographic a b ha hb in
    let ba = cmp-lexicographic b a hb ha in
    let bc = cmp-lexicographic b c hb hc in
    let ac = cmp-lexicographic a c ha hc in
    (
      (
        (λ h.
            ap (λ (k : Bytes). record { key = k }) (eq_of_lexicographic a.key b.key (sym ab ∙ h))),
        λ h.
            ab
            ∙ ap (λ (k : PublicKey). lexicographic a.key k.key) (sym h)
            ∙ lexicographic_self a.key,
      ),
      ba ∙ lexicographic-flip a.key b.key ∙ ap flip (sym ab),
      λ h k. ac ∙ lexicographic_trans a.key b.key c.key (sym ab ∙ h) (sym bc ∙ k),
    )
