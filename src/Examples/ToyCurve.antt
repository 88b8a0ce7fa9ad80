-- ===== src/Examples/ToyCurve.antt =====
-- A group of two points that satisfies the laws of Curve25519, and its properties at inputs.
use libsignal_client.Common.{
  ◌%◌, ◌+◌, ◌≡◌, refl, sym, Bool, true, false, ◌&&◌, some, [], ◌∷◌, length, replicate, arith, ◌==◌,
}
use libsignal_client.Common.Bytes.{Bytes, byte_at, bytes_eq, bytes_eq_iff}
use libsignal_client.Curve.Curve25519.{
  Edwards, LawfulEdwards, new, sign, from, derive_public_key, calculate_agreement, verify_signature,
}
use libsignal_client.Curve.Curve25519.Signature.{verify_signature-sign}
use libsignal_client.Curve.Curve25519.Agreement.{generated, restored, calculate_agreement-swapped}

abbrev xor : Bool → Bool → Bool
xor true true = false
xor true false = true
xor false b = b

abbrev odd : Bytes → Bool
odd [] = false
odd (b ∷ bs) = b % 2 == 1

abbrev point_bytes : Bool → Bytes
unfolding replicate
point_bytes true = 1 ∷ replicate 31 0
point_bytes false = 0 ∷ replicate 31 0

instance abbrev curve : Edwards
unfolding replicate
curve = record {
  Scalar = Bool;
  Point = Bool;
  StaticSecret = Bool;
  PublicKey = Bool;
  SharedSecret = Bool;
  secret_from = odd;
  secret_bytes = point_bytes;
  public_of = λ s. s;
  public_from = odd;
  public_bytes = point_bytes;
  diffie_hellman = ◌&&◌;
  shared_bytes = point_bytes;
  new_secret = λ g. (g % 2 == 1, g + 1);
  fill_bytes = λ n g. (replicate n (g % 256), g + 1);
  from_bits = odd;
  from_hash = λ m. odd (length m ∷ []);
  scalar_bytes = point_bytes;
  scalar_mul = ◌&&◌;
  scalar_add = xor;
  mul_base = λ s. s;
  compress = point_bytes;
  to_edwards = λ public sign_bit. some (odd public);
  neg = λ p. p;
  double_mul = λ h p s. xor (h && p) s;
  ct_eq = bytes_eq;
}

odd-point_bytes : (b : Bool) → odd (point_bytes b) ≡ b
unfolding replicate
odd-point_bytes true = refl
odd-point_bytes false = refl

xor_assoc : (p q r : Bool) → xor (xor p q) r ≡ xor p (xor q r)
xor_assoc true true true = refl
xor_assoc true true false = refl
xor_assoc true false r = refl
xor_assoc false q r = refl

xor_self : (p : Bool) → xor p p ≡ false
xor_self true = refl
xor_self false = refl

and_comm : (a b : Bool) → (a && b) ≡ (b && a)
and_comm true true = refl
and_comm true false = refl
and_comm false true = refl
and_comm false false = refl

length-point_bytes : (b : Bool) → length (point_bytes b) ≡ 32
unfolding replicate
length-point_bytes true = refl
length-point_bytes false = refl

last-point_bytes : (b : Bool) → byte_at 31 (point_bytes b) ≡ 0
unfolding byte_at replicate
last-point_bytes true = refl
last-point_bytes false = refl

curve-Lawful : LawfulEdwards curve
unfolding curve replicate
curve-Lawful = record {
  zero_point = false;
  add = xor;
  times = ◌&&◌;
  add_assoc = xor_assoc;
  zero_add = λ p. refl;
  neg_add = xor_self;
  times-neg = λ h p. refl;
  mul_base-add = λ a b. refl;
  mul_base-mul = λ h a. refl;
  double_mul_lem = λ h p s. refl;
  compress_length = length-point_bytes;
  compress_byte = λ p. omega (arith, last-point_bytes p);
  scalar_length = length-point_bytes;
  sum_reduced = λ a b. omega (arith, last-point_bytes (xor a b));
  from_bits-scalar_bytes = λ a b. odd-point_bytes (xor a b);
  scalar_mul_comm = and_comm;
  to_montgomery = λ q. q;
  secret_from-secret_bytes = odd-point_bytes;
  secret_length = length-point_bytes;
  public_from-public_bytes = odd-point_bytes;
  public_length = length-point_bytes;
  public_of_lem = λ s. sym (odd-point_bytes s);
  diffie_hellman_lem = λ s q. rw (odd-point_bytes s) refl;
  to_edwards_public = λ s. rw (odd-point_bytes s) refl;
  ct_eq_iff = bytes_eq_iff;
}

abbrev private : Bytes
unfolding replicate
private = replicate 32 77

verify_signature-sign_example :
    (length (sign (from private) (1 ∷ 2 ∷ []) (3 ∷ [])) ≡ 64)
    × (verify_signature
          (derive_public_key private)
          (1 ∷ 2 ∷ [])
          (sign (from private) (1 ∷ 2 ∷ []) (3 ∷ []))
        ≡ true)
verify_signature-sign_example = verify_signature-sign curve-Lawful private (1 ∷ 2 ∷ []) (3 ∷ [])

calculate_agreement-swapped_example :
    (calculate_agreement (new 5).0 (from private).public_key
      ≡ calculate_agreement (from private) (new 5).0.public_key)
    × (curve.secret_bytes (curve.secret_from (new 5).0.private_key) ≡ (new 5).0.private_key)
    × (from (new 5).0.private_key ≡ (new 5).0)
    × (derive_public_key (new 5).0.private_key ≡ (new 5).0.public_key)
calculate_agreement-swapped_example =
    calculate_agreement-swapped curve-Lawful (new 5).0 (from private) (generated 5)
      (restored private)
