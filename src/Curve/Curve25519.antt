-- ===== src/Curve/Curve25519.antt =====
-- rust/protocol/src/curve/curve25519.rs: X25519 key pairs, and XEdDSA signatures with them. The
-- arithmetic of the curve (curve25519-dalek, x25519-dalek), SHA-512 and the constant-time comparison
-- are parameters.
pub mod Agreement
pub mod Signature
pub mod Contract
use Prim.Native.Nat.{bit_and, bit_or}
use libsignal_client.Common.{
  ℕ, ◌/◌, ◌≡◌, ◌<◌, ◌↔◌, Bool, true, false, not, Option, none, some, [], ◌∷◌, ◌++◌, length, take,
  drop, set, get_elem?, replicate, ◌==◌, if◌then◌else◌,
}
use libsignal_client.Common.Bytes.{Bytes, byte_at}

-- What the source calls of other crates. A scalar or a point is a value of the crate's type.
pub record Edwards : Type 1 where
  pub Scalar : Type 0
  pub Point : Type 0
  -- `StaticSecret`, `PublicKey` and `SharedSecret` of x25519-dalek
  pub StaticSecret : Type 0
  pub PublicKey : Type 0
  pub SharedSecret : Type 0
  -- `StaticSecret::from` of an array, which clamps it, and `to_bytes`
  pub secret_from : Bytes → StaticSecret
  pub secret_bytes : StaticSecret → Bytes
  -- `PublicKey::from` of a secret and of an array, and `as_bytes`
  pub public_of : StaticSecret → PublicKey
  pub public_from : Bytes → PublicKey
  pub public_bytes : PublicKey → Bytes
  -- `diffie_hellman` and `as_bytes`
  pub diffie_hellman : StaticSecret → PublicKey → SharedSecret
  pub shared_bytes : SharedSecret → Bytes
  -- `StaticSecret::new`, and `fill_bytes` of a number of bytes
  pub new_secret : ℕ → StaticSecret × ℕ
  pub fill_bytes : ℕ → ℕ → Bytes × ℕ
  -- `Scalar::from_bits`, `Scalar::from_hash` of a Sha512 of the bytes, `as_bytes`
  pub from_bits : Bytes → Scalar
  pub from_hash : Bytes → Scalar
  pub scalar_bytes : Scalar → Bytes
  pub scalar_mul : Scalar → Scalar → Scalar
  pub scalar_add : Scalar → Scalar → Scalar
  -- a scalar times the base point, `compress`, `to_edwards` of a Montgomery point and a sign
  pub mul_base : Scalar → Point
  pub compress : Point → Bytes
  pub to_edwards : Bytes → ℕ → Option Point
  pub neg : Point → Point
  -- `vartime_double_scalar_mul_basepoint`
  pub double_mul : Scalar → Point → Scalar → Point
  pub ct_eq : Bytes → Bytes → Bool

-- Their documented behaviour: the points are a group, in which a scalar multiplies the base point;
-- arrays have 32 bytes, and a sum of scalars is reduced by the order of the group, below 2^253. A
-- secret is clamped, so that its bytes give it again; its public key is the Montgomery form of its
-- multiple of the base point, and its agreement with a public key the Montgomery form of its
-- multiple of that key's point. The Montgomery form of a public key is turned back to its point when
-- the sign of the point is given.
pub record LawfulEdwards (e : Edwards) : Type 0 where
  pub zero_point : e.Point
  pub add : e.Point → e.Point → e.Point
  pub times : e.Scalar → e.Point → e.Point
  pub add_assoc : (p q r : e.Point) → add (add p q) r ≡ add p (add q r)
  pub zero_add : (p : e.Point) → add zero_point p ≡ p
  pub neg_add : (p : e.Point) → add (e.neg p) p ≡ zero_point
  pub times-neg : (h : e.Scalar) (p : e.Point) → times h (e.neg p) ≡ e.neg (times h p)
  pub mul_base-add :
      (a b : e.Scalar) → e.mul_base (e.scalar_add a b) ≡ add (e.mul_base a) (e.mul_base b)
  pub mul_base-mul : (h a : e.Scalar) → e.mul_base (e.scalar_mul h a) ≡ times h (e.mul_base a)
  pub double_mul_lem :
      (h : e.Scalar) (p : e.Point) (s : e.Scalar)
      → e.double_mul h p s ≡ add (times h p) (e.mul_base s)
  pub compress_length : (p : e.Point) → length (e.compress p) ≡ 32
  pub compress_byte : (p : e.Point) → byte_at 31 (e.compress p) < 256
  pub scalar_length : (s : e.Scalar) → length (e.scalar_bytes s) ≡ 32
  pub sum_reduced : (a b : e.Scalar) → byte_at 31 (e.scalar_bytes (e.scalar_add a b)) < 32
  pub from_bits-scalar_bytes :
      (a b : e.Scalar) → e.from_bits (e.scalar_bytes (e.scalar_add a b)) ≡ e.scalar_add a b
  pub scalar_mul_comm : (a b : e.Scalar) → e.scalar_mul a b ≡ e.scalar_mul b a
  pub to_montgomery : e.Point → e.PublicKey
  pub secret_from-secret_bytes : (s : e.StaticSecret) → e.secret_from (e.secret_bytes s) ≡ s
  pub secret_length : (s : e.StaticSecret) → length (e.secret_bytes s) ≡ 32
  pub public_from-public_bytes : (q : e.PublicKey) → e.public_from (e.public_bytes q) ≡ q
  pub public_length : (q : e.PublicKey) → length (e.public_bytes q) ≡ 32
  pub public_of_lem :
      (s : e.StaticSecret)
      → e.public_of s ≡ to_montgomery (e.mul_base (e.from_bits (e.secret_bytes s)))
  pub diffie_hellman_lem :
      (s : e.StaticSecret) (q : e.Point)
      → e.shared_bytes (e.diffie_hellman s (to_montgomery q))
        ≡ e.public_bytes (to_montgomery (times (e.from_bits (e.secret_bytes s)) q))
  pub to_edwards_public :
      (s : e.StaticSecret)
      → e.to_edwards (e.public_bytes (e.public_of s)) (
          bit_and (byte_at 31 (e.compress (e.mul_base (e.from_bits (e.secret_bytes s))))) 0x80
          / 128)
        ≡ some (e.mul_base (e.from_bits (e.secret_bytes s)))
  pub ct_eq_iff : (a b : Bytes) → (e.ct_eq a b ≡ true) ↔ (a ≡ b)

pub record KeyPair : Type 0 where
  pub public_key : Bytes
  pub private_key : Bytes

unfoldable pub hash_prefix : Bytes
unfolding replicate
hash_prefix = 0xFE ∷ replicate 31 0xFF

-- `result[..32]`, `result[32..]`, and the sign in the top bit of the last byte.
unfoldable pub join_signature : Bytes → Bytes → ℕ → Bytes
unfolding byte_at set
join_signature cap_r s sign_bit =
    let result = cap_r ++ s in
    let cleared = set result 63 (bit_and (byte_at 63 result) 0x7f) in
    set cleared 63 (bit_or (byte_at 63 cleared) sign_bit)

module _ ⦃e : Edwards⦄ where
  unfoldable pub new : ℕ → KeyPair × ℕ
  new csprng =
      let (secret, csprng') = e.new_secret csprng in
      let public = e.public_of secret in
      (record { public_key = e.public_bytes public; private_key = e.secret_bytes secret }, csprng')

  -- `From<[u8; 32]>`
  unfoldable pub from : Bytes → KeyPair
  from bytes =
      let private_key = e.secret_from bytes in
      let public_key = e.public_of private_key in
      record { private_key = e.secret_bytes private_key; public_key = e.public_bytes public_key }

  unfoldable pub derive_public_key : Bytes → Bytes
  derive_public_key private_key = e.public_bytes (e.public_of (e.secret_from private_key))

  unfoldable pub calculate_agreement : KeyPair → Bytes → Bytes
  calculate_agreement k their_public_key =
      e.shared_bytes
        (e.diffie_hellman (e.secret_from k.private_key) (e.public_from their_public_key))

  -- The signature from its random bytes.
  unfoldable pub sign : KeyPair → Bytes → Bytes → Bytes
  sign k message random_bytes =
      let a = e.from_bits k.private_key in
      let ed_public_key = e.compress (e.mul_base a) in
      let sign_bit = bit_and (byte_at 31 ed_public_key) 0x80 in
      let r = e.from_hash (hash_prefix ++ k.private_key ++ message ++ random_bytes) in
      let cap_r = e.compress (e.mul_base r) in
      let h = e.from_hash (cap_r ++ ed_public_key ++ message) in
      let s = e.scalar_add (e.scalar_mul h a) r in join_signature cap_r (e.scalar_bytes s) sign_bit

  unfoldable pub calculate_signature : KeyPair → ℕ → Bytes → Bytes × ℕ
  unfolding sign
  calculate_signature k csprng message =
      let (random_bytes, csprng') = e.fill_bytes 64 csprng in (sign k message random_bytes, csprng')

  -- The comparison with the point that the signature has to open to.
  unfoldable pub check_point : e.Point → Bytes → Bytes → Bool
  check_point ed_pub_key_point message signature =
      let cap_a = e.compress ed_pub_key_point in
      let cap_r = take 32 signature in
      let tail = drop 32 signature in
      let s = set tail 31 (bit_and (byte_at 31 tail) 0x7f) in
      let h = e.from_hash (cap_r ++ cap_a ++ message) in
      if not (bit_and (byte_at 31 s) 0xE0 == 0)
      then false
      else e.ct_eq (e.compress (e.double_mul h (e.neg ed_pub_key_point) (e.from_bits s))) cap_r

  abbrev check_decoded : Option e.Point → Bytes → Bytes → Bool
  check_decoded none message signature = false
  check_decoded (some point) message signature = check_point point message signature

  unfoldable pub verify_signature : Bytes → Bytes → Bytes → Bool
  verify_signature their_public_key message signature =
      check_decoded (e.to_edwards their_public_key (bit_and (byte_at 63 signature) 0x80 / 128))
        message signature
