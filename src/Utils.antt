-- ===== src/Utils.antt =====
-- rust/protocol/src/utils.rs: bytes are compared by arithmetic on masks, 0 or 0xFF, and not by
-- branches. A `u8` wraps at 256.
pub mod Lexicographic
use Prim.Native.Nat.{bit_and, bit_or, bit_xor, Ordering}
use libsignal_client.Common.{ℕ, zero, suc, ◌+◌, ◌-◌, ◌/◌, ◌%◌, length, ltb, ◌==◌, if◌then◌else◌}
use libsignal_client.Common.Bytes.{Bytes, byte_at}

abbrev wrapping_sub : ℕ → ℕ → ℕ
wrapping_sub a b = (a + 256 - b) % 256

-- `!a`
abbrev complement : ℕ → ℕ
complement a = bit_xor a 0xFF

unfoldable pub expand_top_bit : ℕ → ℕ
expand_top_bit a = wrapping_sub 0 (a / 128)

unfoldable pub ct_is_zero : ℕ → ℕ
unfolding expand_top_bit
ct_is_zero a = expand_top_bit (bit_and (complement a) (wrapping_sub a 1))

unfoldable pub ct_is_eq : ℕ → ℕ → ℕ
unfolding ct_is_zero
ct_is_eq a b = ct_is_zero (bit_xor a b)

unfoldable pub ct_is_lt : ℕ → ℕ → ℕ
unfolding expand_top_bit
ct_is_lt a b = expand_top_bit (bit_xor a (bit_or (bit_xor a b) (bit_xor (wrapping_sub a b) a)))

unfoldable pub ct_select : ℕ → ℕ → ℕ → ℕ
ct_select mask a b = bit_xor b (bit_and mask (bit_xor a b))

-- One round: the result so far is kept where the bytes are equal.
unfoldable pub round : ℕ → ℕ → ℕ → ℕ
round result a b = ct_select (ct_is_eq a b) result (ct_select (ct_is_lt a b) 1 255)

-- The rounds left, the index of the next, and the result so far.
unfoldable pub cmp_loop : ℕ → ℕ → ℕ → Bytes → Bytes → ℕ
cmp_loop zero i result x y = result
cmp_loop (suc n) i result x y =
    let last = length x - 1 - i in
    cmp_loop n (suc i) (round result (byte_at last x) (byte_at last y)) x y

abbrev ordering_of : ℕ → Ordering
ordering_of result =
    if result == 0 then Ordering.eq else if result == 1 then Ordering.lt else Ordering.gt

unfoldable pub constant_time_cmp : Bytes → Bytes → Ordering
unfolding cmp_loop
constant_time_cmp x y =
    if ltb (length x) (length y)
    then Ordering.lt
    else if ltb (length y) (length x)
    then Ordering.gt
    else ordering_of (cmp_loop (length x) 0 0 x y)
