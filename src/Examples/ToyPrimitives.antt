-- ===== src/Examples/ToyPrimitives.antt =====
-- Functions that have the documented behaviour of the cryptographic ones, and can be computed with.
-- Encryption is the padding of PKCS#7 alone.
use libsignal_client.Common.{
  length-replicate, ℕ, zero, suc, ◌+◌, ◌-◌, ◌%◌, ◌≡◌, ◌≢◌, refl, ap, Option, some, [], ◌∷◌, ◌++◌,
  arith, length, take, replicate, length-append, length-take, take-append, ◌==◌, ==_iff,
}
use libsignal_client.Common.Bytes.{Bytes, bytes_eq, bytes_eq_iff}
use libsignal_client.Primitives.{Primitives, Lawful}

abbrev pub sum : Bytes → ℕ
sum [] = 0
sum (b ∷ bs) = b + sum bs

abbrev pub first : Bytes → ℕ
first [] = 0
first (b ∷ bs) = b

abbrev pub last : Bytes → ℕ
last [] = 0
last (b ∷ []) = b
last (b ∷ c ∷ bs) = last (c ∷ bs)

abbrev pub padding : Bytes → ℕ
padding m = 16 - length m % 16

unfoldable pub pad : Bytes → Bytes
unfolding replicate
pad m = m ++ replicate (padding m) (padding m)

unfoldable pub unpad : Bytes → Option Bytes
unfolding take
unpad c = some (take (length c - last c) c)

instance unfoldable pub toy : Primitives
unfolding take replicate
toy = record {
  hmac = λ k m. take 32 (m ++ (k ++ replicate 32 0));
  cbc_encrypt = λ k iv m. pad m;
  cbc_decrypt = λ k iv c. unpad c;
  x25519 = λ a b. (sum a + first b) ∷ replicate 31 0;
  x25519_public = λ a. sum a ∷ replicate 31 0;
  static_secret = λ g. (replicate 32 g, g + 1);
  xeddsa_sign = λ k m r. (sum k + sum m) ∷ replicate 63 0;
  xeddsa_verify = λ k m s. first s == first k + sum m;
  fill_bytes = λ n g. (replicate n g, g + 1);
  ct_eq = bytes_eq;
  gen_32 = λ g. (replicate 32 g, g + 1);
  next_u32 = λ g. (g, g + 1);
}

last-replicate : (n a : ℕ) → last (replicate (suc n) a) ≡ a
unfolding replicate
last-replicate zero a = refl
last-replicate (suc n) a = last-replicate n a

last-append : (m : Bytes) (n a : ℕ) → last (m ++ replicate (suc n) a) ≡ a
unfolding replicate
last-append [] n a = last-replicate n a
last-append (b ∷ []) n a = last-replicate n a
last-append (b ∷ c ∷ bs) n a = last-append (c ∷ bs) n a

some_padding : (m : Bytes) → padding m ≡ suc (padding m - 1)
some_padding m = omega arith

last-pad : (m : Bytes) → last (pad m) ≡ padding m
unfolding pad
last-pad m = rw (some_padding m) (last-append m (padding m - 1) (suc (padding m - 1)))

length-pad : (m : Bytes) → length (pad m) ≡ length m + padding m
unfolding pad
length-pad m = omega (
  arith,
  length-append m (replicate (padding m) (padding m)),
  length-replicate (padding m) (padding m),
)

unfold_pad : (m : Bytes) → take (length m) (pad m) ≡ m
unfolding pad
unfold_pad m = take-append m (replicate (padding m) (padding m)) (length m) refl

length_zero : (m : Bytes) → pad m ≢ []
length_zero m h = absurd (omega (arith, length-pad m, ap length h))

length_stretch : (k m : Bytes) → length (take 32 (m ++ (k ++ replicate 32 0))) ≡ 32
unfolding replicate
length_stretch k m = omega (
  arith,
  length-take 32 (m ++ (k ++ replicate 32 0)),
  length-append m (k ++ replicate 32 0),
  length-append k (replicate 32 0),
)

unpad-pad : (m : Bytes) → unpad (pad m) ≡ some m
unfolding unpad
unpad-pad m =
    let size : length (pad m) - last (pad m) ≡ length m = omega (arith, length-pad m, last-pad m) in
    rw size (ap some (unfold_pad m))

pub toy-Lawful : Lawful toy
unfolding toy replicate
toy-Lawful = record {
  hmac_length = λ k m. length_stretch k m;
  cbc_round = λ k iv m. unpad-pad m;
  cbc_blocks = λ k iv m. omega (arith, length-pad m);
  cbc_padded = λ k iv m h. length_zero m h;
  x25519_comm = λ a b. ap (λ (n : ℕ). n ∷ replicate 31 0) (omega arith);
  x25519_public_length = λ a. refl;
  static_secret_length = λ g. refl;
  gen_32_length = λ g. refl;
  ct_eq_iff = bytes_eq_iff;
  xeddsa_length = λ k m r. refl;
  xeddsa_correct = λ k m r. (==_iff _ _).1 refl;
}
