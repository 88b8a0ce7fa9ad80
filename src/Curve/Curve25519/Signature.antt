-- ===== src/Curve/Curve25519/Signature.antt =====
-- A signature of rust/protocol/src/curve/curve25519.rs is accepted under the public key.
use Prim.Native.Nat.{bit_and, bit_or}
use libsignal_client.Common.{
  ℕ, ◌<◌, ◌≡◌, refl, ap, Bool, true, ◌&&◌, ◌++◌, length, set, set-set, set_self, set-append,
  get_elem?-append, get_elem?-set_self, get_elem?-some, take-append, drop-append, length-append,
  length-set, arith, ◌==◌,
}
use libsignal_client.Common.Bits.{all_below, all_below_sound}
use libsignal_client.Common.Bytes.{Bytes, byte_at, or_zero}
use libsignal_client.Curve.Curve25519.{
  Edwards, LawfulEdwards, hash_prefix, join_signature, from, derive_public_key, sign, check_point,
  verify_signature,
}

-- The byte that carries the sign, for the last byte of a reduced scalar and of a point.
abbrev sealed : ℕ → ℕ → ℕ
sealed b x = bit_or (bit_and b 0x7f) (bit_and x 0x80)

abbrev seal_test : ℕ → ℕ → Bool
seal_test b x =
    bit_and (sealed b x) 0x80 == bit_and x 0x80
    && (bit_and (sealed b x) 0x7f == b && bit_and b 0xE0 == 0)

abbrev seal_row : ℕ → Bool
unfolding all_below
seal_row b = all_below 256 (seal_test b)

seal_table : all_below 32 seal_row ≡ true
unfolding all_below seal_row
seal_table = refl

seal_at : (b x : ℕ) → b < 32 → x < 256 → seal_test b x ≡ true
unfolding seal_row
seal_at b x hb hx =
    all_below_sound 256 (seal_test b) x (all_below_sound 32 seal_row b seal_table hb) hx

seal_lem :
    (b x : ℕ)
    → b < 32
    → x < 256
    → (bit_and (sealed b x) 0x80 ≡ bit_and x 0x80)
      × (bit_and (sealed b x) 0x7f ≡ b)
      × (bit_and b 0xE0 ≡ 0)
seal_lem b x hb hx = ground (arith, seal_at b x hb hx)

byte_at-append : (xs ys : Bytes) → length xs ≡ 32 → byte_at 63 (xs ++ ys) ≡ byte_at 31 ys
unfolding byte_at
byte_at-append xs ys h = ap or_zero (get_elem?-append xs ys 32 31 h)

byte_at-set : (xs : Bytes) (v : ℕ) → length xs ≡ 32 → byte_at 31 (set xs 31 v) ≡ v
unfolding byte_at
byte_at-set xs v h = ap or_zero (get_elem?-set_self xs 31 v (omega arith))

set-byte_at : (xs : Bytes) → length xs ≡ 32 → set xs 31 (byte_at 31 xs) ≡ xs
unfolding byte_at
set-byte_at xs h = let (a, e) = get_elem?-some xs 31 (omega arith) in rw e (set_self xs 31 a e)

join_signature_lem :
    (r s : Bytes) (sign_bit : ℕ)
    → length r ≡ 32
    → length s ≡ 32
    → join_signature r s sign_bit ≡ r ++ set s 31 (bit_or (bit_and (byte_at 31 s) 0x7f) sign_bit)
unfolding join_signature
join_signature_lem r s sign_bit hr hs =
    let low = bit_and (byte_at 31 s) 0x7f in
    rw
      (
        byte_at-append r s hr,
        set-append r s 32 31 low hr,
        byte_at-append r (set s 31 low) hr,
        byte_at-set s low hs,
        set-append r (set s 31 low) 32 31 (bit_or low sign_bit) hr,
        set-set s 31 low (bit_or low sign_bit),
      )
      refl

module _ ⦃e : Edwards⦄ (laws : LawfulEdwards e) where
  -- The equation of the scheme in the group: h (-A) + s B is r B for s = h a + r.
  opens :
      (h a r : e.Scalar)
      → e.double_mul h (e.neg (e.mul_base a)) (e.scalar_add (e.scalar_mul h a) r) ≡ e.mul_base r
  opens h a r =
      let ha = laws.times h (e.mul_base a) in
      rw
        (
          laws.double_mul_lem h (e.neg (e.mul_base a)) (e.scalar_add (e.scalar_mul h a) r),
          laws.times-neg h (e.mul_base a),
          laws.mul_base-add (e.scalar_mul h a) r,
          laws.mul_base-mul h a,
          ← laws.add_assoc (e.neg ha) ha (e.mul_base r),
          laws.neg_add ha,
          laws.zero_add (e.mul_base r),
        )
        refl

  accepted :
      (a r : e.Scalar) (message : Bytes)
      → let cap_r = e.compress (e.mul_base r) in
        let cap_a = e.compress (e.mul_base a) in
        let h = e.from_hash (cap_r ++ cap_a ++ message) in
        let s = e.scalar_bytes (e.scalar_add (e.scalar_mul h a) r) in
        check_point
          (e.mul_base a)
          message
          (cap_r ++ set s 31 (sealed (byte_at 31 s) (byte_at 31 cap_a)))
        ≡ true
  unfolding check_point
  accepted a r message =
      let cap_r = e.compress (e.mul_base r) in
      let cap_a = e.compress (e.mul_base a) in
      let h = e.from_hash (cap_r ++ cap_a ++ message) in
      let s = e.scalar_bytes (e.scalar_add (e.scalar_mul h a) r) in
      let size = laws.scalar_length (e.scalar_add (e.scalar_mul h a) r) in
      let b = byte_at 31 s in
      let v = sealed b (byte_at 31 cap_a) in
      let (signed, low, reduced) =
        seal_lem b (byte_at 31 cap_a) (laws.sum_reduced (e.scalar_mul h a) r)
          (laws.compress_byte (e.mul_base a)) in
      rw
        (
          take-append cap_r (set s 31 v) 32 (laws.compress_length (e.mul_base r)),
          drop-append cap_r (set s 31 v) 32 (laws.compress_length (e.mul_base r)),
          byte_at-set s v size,
          low,
          set-set s 31 v b,
          set-byte_at s size,
          reduced,
          laws.from_bits-scalar_bytes (e.scalar_mul h a) r,
          opens h a r,
          (laws.ct_eq_iff cap_r cap_r).1 refl,
        )
        refl

  -- Whatever the private key, the message and the random bytes, the signature has 64 bytes and is
  -- accepted for the message under the public key that is derived from the private key.
  pub verify_signature-sign :
      (k message random : Bytes)
      → (length (sign (from k) message random) ≡ 64)
        × (verify_signature (derive_public_key k) message (sign (from k) message random) ≡ true)
  unfolding sign from derive_public_key verify_signature
  verify_signature-sign k message random =
      let private = e.secret_bytes (e.secret_from k) in
      let a = e.from_bits private in
      let r = e.from_hash (hash_prefix ++ private ++ message ++ random) in
      let cap_r = e.compress (e.mul_base r) in
      let cap_a = e.compress (e.mul_base a) in
      let h = e.from_hash (cap_r ++ cap_a ++ message) in
      let s = e.scalar_bytes (e.scalar_add (e.scalar_mul h a) r) in
      let wide = laws.compress_length (e.mul_base r) in
      let size = laws.scalar_length (e.scalar_add (e.scalar_mul h a) r) in
      let v = sealed (byte_at 31 s) (byte_at 31 cap_a) in
      let joined = join_signature_lem cap_r s (bit_and (byte_at 31 cap_a) 0x80) wide size in
      let (signed, low, reduced) =
        seal_lem (byte_at 31 s) (byte_at 31 cap_a) (laws.sum_reduced (e.scalar_mul h a) r)
          (laws.compress_byte (e.mul_base a)) in
      (
        rw joined (omega (arith, length-append cap_r (set s 31 v), length-set s 31 v)),
        rw
            (
              joined,
              byte_at-append cap_r (set s 31 v) wide,
              byte_at-set s v size,
              signed,
              laws.to_edwards_public (e.secret_from k),
            )
            (accepted a r message),
      )
