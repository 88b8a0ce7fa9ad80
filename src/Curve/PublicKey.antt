-- ===== src/Curve/PublicKey.antt =====
-- `PublicKey` of rust/protocol/src/curve.rs.
use libsignal_client.Common.{
  ℕ, ◌≡◌, ap, ◌↔◌, Bool, true, [], ◌∷◌, arith, length, take, take_all, length-take, ltb, ◌==◌,
  if◌then◌else◌,
}
use libsignal_client.Common.Bytes.{Bytes}
use libsignal_client.Error.{
  KeyType, djb, Result, ok, err, ◌>>=◌, no_key_type_identifier, bad_key_type, bad_key_length,
  mismatched_signature_length_for_key,
}
use libsignal_client.Primitives.{Primitives, Lawful}

-- The 32 bytes of a Djb key, which is the one kind of key.
pub record PublicKey : Type 0 where
  pub key : Bytes

unfoldable pub key_type_value : KeyType → ℕ
key_type_value djb = 0x05

unfoldable pub key_type_try_from : ℕ → Result KeyType
key_type_try_from x = if x == 0x05 then ok djb else err (bad_key_type x)

-- Bytes after the key are allowed and ignored.
unfoldable pub deserialize : Bytes → Result PublicKey
unfolding key_type_try_from
deserialize [] = err no_key_type_identifier
deserialize (t ∷ rest) = do
  _ ← key_type_try_from t
  if ltb (length (t ∷ rest)) 33
      then err (bad_key_length djb (length (t ∷ rest)))
      else ok (record { key = take 32 rest })

unfoldable pub serialize : PublicKey → Bytes
unfolding key_type_value
serialize k = key_type_value djb ∷ k.key

unfoldable pub public_key_eq : ⦃p : Primitives⦄ → PublicKey → PublicKey → Bool
public_key_eq ⦃p⦄ a b = p.ct_eq a.key b.key

unfoldable pub verify_signature : ⦃p : Primitives⦄ → PublicKey → Bytes → Bytes → Result Bool
verify_signature ⦃p⦄ k message signature =
    if length signature == 64
    then ok (p.xeddsa_verify k.key message signature)
    else err (mismatched_signature_length_for_key djb (length signature))

abbrev pub IsKey : PublicKey → Type 0
IsKey k = length k.key ≡ 32

pub deserialize-serialize : (k : PublicKey) → IsKey k → deserialize (serialize k) ≡ ok k
unfolding deserialize serialize
deserialize-serialize k h = ground (arith, take_all k.key 32 (omega arith))

pub deserialize-IsKey : (b : Bytes) {k : PublicKey} → deserialize b ≡ ok k → IsKey k
unfolding deserialize
deserialize-IsKey [] h = cc
deserialize-IsKey (t ∷ rest) h = ground (arith, length-take 32 rest)

pub public_key_eq_iff :
    ⦃p : Primitives⦄ (laws : Lawful p) (a b : PublicKey) → (public_key_eq a b ≡ true) ↔ (a ≡ b)
unfolding public_key_eq
public_key_eq_iff laws a b = (
  (λ h. ground (arith, (laws.ct_eq_iff a.key b.key).0)),
  (λ h. (laws.ct_eq_iff a.key b.key).1 (ap (λ (k : PublicKey). k.key) h)),
)
