-- ===== src/AesGcmSiv/Words.antt =====
-- Numbers as little-endian bytes, and the exclusive or of byte strings.
use Prim.Native.Nat.{bit_xor}
use libsignal_client.Common.{
  ℕ, zero, suc, ◌*◌, ◌+◌, ◌/◌, ◌%◌, ◌≡◌, refl, Bool, true, ◌&&◌, [], ◌∷◌, length, All, arith, ltb,
  ◌==◌,
}
use libsignal_client.Common.Bytes.{Bytes, IsByte}
use libsignal_client.Common.Bits.{all_below, all_below_sound}

-- `to_le_bytes` of a number of so many bytes.
unfoldable pub to_le_bytes : ℕ → ℕ → Bytes
to_le_bytes zero x = []
to_le_bytes (suc n) x = (x % 256) ∷ to_le_bytes n (x / 256)

-- `from_le_bytes`
unfoldable pub from_le_bytes : Bytes → ℕ
from_le_bytes [] = 0
from_le_bytes (b ∷ bs) = b + 256 * from_le_bytes bs

-- The first bytes are changed by those of the pad, as far as both go.
unfoldable pub xor_into : Bytes → Bytes → Bytes
xor_into [] pad = []
xor_into (b ∷ bs) [] = b ∷ bs
xor_into (b ∷ bs) (p ∷ ps) = bit_xor b p ∷ xor_into bs ps

pub length-to_le_bytes : (n x : ℕ) → length (to_le_bytes n x) ≡ n
unfolding to_le_bytes
length-to_le_bytes zero x = refl
length-to_le_bytes (suc n) x = omega (arith, length-to_le_bytes n (x / 256))

pub length-xor_into : (bs ps : Bytes) → length (xor_into bs ps) ≡ length bs
unfolding xor_into
length-xor_into [] ps = refl
length-xor_into (b ∷ bs) [] = refl
length-xor_into (b ∷ bs) (p ∷ ps) = omega (arith, length-xor_into bs ps)

-- The laws of the exclusive or are checked on every pair of bytes.
abbrev xor_test : ℕ → ℕ → Bool
xor_test a b = (bit_xor (bit_xor a b) b == a) && ltb (bit_xor a b) 256

abbrev xor_row : ℕ → Bool
unfolding all_below
xor_row a = all_below 256 (xor_test a)

xor_table : all_below 256 xor_row ≡ true
unfolding all_below xor_row
xor_table = refl

xor_at : (a b : ℕ) → IsByte a → IsByte b → xor_test a b ≡ true
unfolding xor_row
xor_at a b ha hb =
    all_below_sound 256 (xor_test a) b (all_below_sound 256 xor_row a xor_table ha) hb

pub xor_twice : (a b : ℕ) → IsByte a → IsByte b → bit_xor (bit_xor a b) b ≡ a
xor_twice a b ha hb = ground (arith, xor_at a b ha hb)

pub xor-IsByte : (a b : ℕ) → IsByte a → IsByte b → IsByte (bit_xor a b)
xor-IsByte a b ha hb = ground (arith, xor_at a b ha hb)

pub xor_into_twice :
    (bs ps : Bytes) → All IsByte bs → All IsByte ps → xor_into (xor_into bs ps) ps ≡ bs
unfolding xor_into
xor_into_twice [] ps hb hp = refl
xor_into_twice (b ∷ bs) [] hb hp = refl
xor_into_twice (b ∷ bs) (p ∷ ps) hb hp =
    ground (arith, xor_twice b p hb.0 hp.0, xor_into_twice bs ps hb.1 hp.1)

pub xor_into-IsByte : (bs ps : Bytes) → All IsByte bs → All IsByte ps → All IsByte (xor_into bs ps)
unfolding xor_into
xor_into-IsByte [] ps hb hp = tt
xor_into-IsByte (b ∷ bs) [] hb hp = hb
xor_into-IsByte (b ∷ bs) (p ∷ ps) hb hp =
    (xor-IsByte b p hb.0 hp.0, xor_into-IsByte bs ps hb.1 hp.1)
