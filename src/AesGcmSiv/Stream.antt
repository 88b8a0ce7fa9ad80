-- ===== src/AesGcmSiv/Stream.antt =====
-- `ctr32` of rust/aes-gcm-siv/src/aes_gcm_siv.rs: the buffer is changed in place by pads of eight
-- encrypted counter blocks.
use Prim.Native.Nat.{bit_or}
use libsignal_client.Common.{
  ℕ, zero, suc, ◌+◌, ◌*◌, ◌/◌, ◌%◌, ◌^◌, ◌≡◌, ◌≤◌, refl, [], ◌++◌, length, take, drop, set, arith,
  length-set, Option-cases, length_zero, ◌==◌, ==_iff, ◌≢◌, take-append, drop-append, take_all,
  drop_all, take-drop, length-take, length-drop, length-append, All, All-take, All-drop, inl, inr,
  get_elem?, Option, none, some, Bool-cases,
}
use mathlib.Core.List.{append-nil}
use libsignal_client.Common.Bytes.{Bytes, IsByte}
use libsignal_client.AesGcmSiv.{Outcome, done, failed, Crates, LawfulCrates}
use libsignal_client.AesGcmSiv.Words.{
  to_le_bytes, from_le_bytes, xor_into, length-to_le_bytes, length-xor_into, xor_into_twice,
}
use libsignal_client.AesGcmSiv.Aes
use libsignal_client.AesGcmSiv.Aes.{
  Aes256, encrypt-each_block, each_block, length-each_block, each_block-IsByte,
}

abbrev set_high : Option ℕ → Bytes → Bytes
unfolding set
set_high none block = block
set_high (some b) block = set block 15 (bit_or b 0x80)

-- `block[15] |= 0x80`
unfoldable pub set_top_bit : Bytes → Bytes
unfolding get_elem? set_high
set_top_bit block = set_high (get_elem? block 15) block

unfoldable pub counter_block : ℕ → Bytes → Bytes
unfolding set_top_bit to_le_bytes drop
counter_block counter nonce = set_top_bit (to_le_bytes 4 counter ++ drop 4 nonce)

-- So many counter blocks from a counter on.
unfoldable pub counter_blocks : ℕ → ℕ → Bytes → Bytes
unfolding counter_block
counter_blocks zero counter nonce = []
counter_blocks (suc n) counter nonce =
    counter_block counter nonce ++ counter_blocks n ((counter + 1) % 2 ^ 32) nonce

-- One round, from its pad and what the later rounds make of the rest of the buffer.
abbrev pub apply_pad :
    Outcome Bytes → Bytes → Outcome (Unit {0}) × Bytes → Outcome (Unit {0}) × Bytes
apply_pad (failed e) buffer later = (failed e, buffer)
apply_pad (done pad) buffer (r, rest) = (r, xor_into (take 128 buffer) pad ++ rest)

module _ ⦃c : Crates⦄ where
  -- So many rounds of the loop over pads, on the part of the buffer that they have to change. Where
  -- a round fails, what the rounds before it changed stays changed.
  unfoldable pub ctr_pads : ℕ → ℕ → Bytes → Aes256 → Bytes → Outcome (Unit {0}) × Bytes
  unfolding counter_blocks xor_into take drop
  ctr_pads zero counter nonce aes buffer = (done tt, buffer)
  ctr_pads (suc n) counter nonce aes buffer =
      apply_pad (Aes.encrypt aes (counter_blocks 8 counter nonce)) buffer
        (ctr_pads n ((counter + 8) % 2 ^ 32) nonce aes (drop 128 buffer))

  unfoldable pub ctr32 : Bytes → Bytes → Aes256 → Outcome (Unit {0}) × Bytes
  unfolding ctr_pads from_le_bytes take
  ctr32 buffer nonce aes =
      ctr_pads ((length buffer + 128) / 128) (from_le_bytes (take 4 nonce)) nonce aes buffer

length-set_top_bit : (block : Bytes) → length (set_top_bit block) ≡ length block
unfolding set_top_bit set_high
length-set_top_bit block = elim (Option-cases (get_elem? block 15)) [
  | inl h ↦ rw h refl
  | inr (b, h) ↦ rw h (length-set block 15 (bit_or b 0x80))
]

length-counter_blocks :
    (n counter : ℕ) (nonce : Bytes)
    → length nonce ≡ 16
    → length (counter_blocks n counter nonce) ≡ 16 * n
unfolding counter_blocks counter_block
length-counter_blocks zero counter nonce h = refl
length-counter_blocks (suc n) counter nonce h =
    let block = to_le_bytes 4 counter ++ drop 4 nonce in
    let next = (counter + 1) % 2 ^ 32 in
    omega (
      arith,
      length-append (set_top_bit block) (counter_blocks n next nonce),
      length-set_top_bit block,
      length-append (to_le_bytes 4 counter) (drop 4 nonce),
      length-to_le_bytes 4 counter,
      length-drop 4 nonce,
      length-counter_blocks n next nonce h,
    )

-- Two parts of a buffer, the second empty unless the first is a whole pad, are found again.
parts :
    (front rest : Bytes)
    → length front ≤ 128
    → (length front ≢ 128 → rest ≡ [])
    → (take 128 (front ++ rest) ≡ front) × (drop 128 (front ++ rest) ≡ rest)
parts front rest le short = elim (Bool-cases (length front == 128)) [
  | inl whole ↦
      let e = (==_iff (length front) 128).0 whole in
      (take-append front rest 128 e, drop-append front rest 128 e)
  | inr part ↦
      let e = short (λ h. cc (rw h at part)) in
      rw (e, append-nil front) (take_all front 128 le, drop_all 128 front le)
]

module _ ⦃c : Crates⦄ (laws : LawfulCrates c) (nonce : Bytes) (aes : Aes256)
    (sized : length nonce ≡ 16) where
  pad_made :
      (counter : ℕ)
      → (pad : Bytes) × (Aes.encrypt aes (counter_blocks 8 counter nonce) ≡ done pad)
        × All IsByte pad
  pad_made counter =
      let b = counter_blocks 8 counter nonce in
      let size = length-counter_blocks 8 counter nonce sized in
      (
        each_block aes 8 b,
        encrypt-each_block aes laws 8 b size,
        each_block-IsByte aes laws 8 b size,
      )

  ctr_pads-twice :
      (n counter : ℕ) (b : Bytes)
      → (b' : Bytes) × (ctr_pads n counter nonce aes b ≡ (done tt, b'))
        × (length b' ≡ length b)
        × (All IsByte b → ctr_pads n counter nonce aes b' ≡ (done tt, b))
  unfolding ctr_pads
  ctr_pads-twice zero counter b = (b, refl, refl, λ h. refl)
  ctr_pads-twice (suc n) counter b =
      let (pad, made, bytes) = pad_made counter in
      let (rest, run, len, back) = ctr_pads-twice n ((counter + 8) % 2 ^ 32) (drop 128 b) in
      let front = xor_into (take 128 b) pad in
      let size = length-xor_into (take 128 b) pad in
      let size' = length-take 128 b in
      let len' = length-drop 128 b in
      let (t, d) = parts front rest (omega arith) (λ short. length_zero rest (omega arith)) in
      (
        front ++ rest,
        rw (made, run) refl,
        omega (arith, length-append front rest),
        λ h.
            rw
              (
                made,
                t,
                d,
                back (All-drop IsByte 128 b h),
                xor_into_twice (take 128 b) pad (All-take IsByte 128 b h) bytes,
                take-drop 128 b,
              )
              refl,
      )

  -- The stream changes a buffer of any length to one of the same length, and changes that back.
  pub ctr32-twice :
      (b : Bytes)
      → (b' : Bytes) × (ctr32 b nonce aes ≡ (done tt, b'))
        × (length b' ≡ length b)
        × (All IsByte b → ctr32 b' nonce aes ≡ (done tt, b))
  unfolding ctr32
  ctr32-twice b =
      let (b', run, len, back) =
        ctr_pads-twice ((length b + 128) / 128) (from_le_bytes (take 4 nonce)) b in
      (b', run, len, λ h. rw len (back h))
