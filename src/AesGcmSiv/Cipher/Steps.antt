-- ===== src/AesGcmSiv/Cipher/Steps.antt =====
-- The steps that both operations of rust/aes-gcm-siv/src/aes_gcm_siv.rs begin with succeed.
use libsignal_client.Common.{
  ℕ, zero, suc, ◌-◌, ◌*◌, ◌%◌, ◌^◌, ◌≡◌, ◌≤◌, refl, Option-cases, inl, inr, ◌++◌, length, take,
  slice, drop, length-take, length-drop, length-append, length-set, length-replicate, replicate,
  get_elem?, arith, ◌==◌, true,
}
use libsignal_client.Common.Bytes.{Bytes}
use libsignal_client.AesGcmSiv.{done, Crates, LawfulCrates}
use libsignal_client.AesGcmSiv.Words.{to_le_bytes, length-to_le_bytes, xor_into, length-xor_into}
use libsignal_client.AesGcmSiv.Aes
use libsignal_client.AesGcmSiv.Aes.{Aes256, each_block, encrypt-each_block, length-each_block}
use libsignal_client.AesGcmSiv.Polyval
use libsignal_client.AesGcmSiv.Polyval.{Polyval}
use libsignal_client.AesGcmSiv.Cipher.{
  Aes256GcmSiv, input_blocks, key_input, split_keys, length_block, clear_top_bit, derive_keys,
  compute_tag, prepare,
}

length-input_blocks :
    (n i : ℕ) (nonce : Bytes) → length nonce ≡ 12 → length (input_blocks n i nonce) ≡ 16 * n
unfolding input_blocks to_le_bytes
length-input_blocks zero i nonce h = refl
length-input_blocks (suc n) i nonce h = omega (
  arith,
  length-append (to_le_bytes 4 i) (nonce ++ input_blocks n (suc i) nonce),
  length-to_le_bytes 4 i,
  length-append nonce (input_blocks n (suc i) nonce),
  length-input_blocks n (suc i) nonce h,
)

length-key_input : (nonce : Bytes) → length nonce ≡ 12 → length (key_input nonce) ≡ 16 * 8
unfolding key_input
length-key_input nonce h = omega (
  arith,
  length-append (input_blocks 6 0 nonce) (replicate 32 0),
  length-input_blocks 6 0 nonce h,
  length-replicate {A = ℕ} 32 0,
)

length-slice : (a b : ℕ) (xs : Bytes) → b ≤ length xs → length (slice a b xs) ≡ b - a
unfolding slice
length-slice a b xs h = omega (arith, length-take (b - a) (drop a xs), length-drop a xs)

length-split_keys :
    (pad : Bytes)
    → length pad ≡ 16 * 8
    → (length (split_keys pad).0 ≡ 32) × (length (split_keys pad).1 ≡ 16)
unfolding split_keys
length-split_keys pad h =
    let a = slice 32 40 pad in
    let b = slice 48 56 pad in
    let d = slice 64 72 pad in
    let e = slice 80 88 pad in
    let x = slice 0 8 pad in
    let y = slice 16 24 pad in
    let la = length-slice 32 40 pad (omega arith) in
    let lb = length-slice 48 56 pad (omega arith) in
    let ld = length-slice 64 72 pad (omega arith) in
    let le = length-slice 80 88 pad (omega arith) in
    let lx = length-slice 0 8 pad (omega arith) in
    let ly = length-slice 16 24 pad (omega arith) in
    let first : length (a ++ b ++ d ++ e) ≡ 32 =
      omega (arith, length-append (a ++ b ++ d) e, length-append (a ++ b) d, length-append a b) in
    let second : length (x ++ y) ≡ 16 = omega (arith, length-append x y) in (first, second)

length-clear_top_bit : (tag : Bytes) → length (clear_top_bit tag) ≡ length tag
unfolding clear_top_bit
length-clear_top_bit tag = elim (Option-cases (get_elem? tag 15)) [
  | inl h ↦ rw h refl
  | inr (b, h) ↦ rw h (length-set tag 15 _)
]

length-length_block : (a b : ℕ) → length (length_block a b) ≡ 16
unfolding length_block
length-length_block a b =
    let x = to_le_bytes 8 (a * 8 % 2 ^ 64) in
    let y = to_le_bytes 8 (b * 8 % 2 ^ 64) in
    omega (
      arith,
      length-append x y,
      length-to_le_bytes 8 (a * 8 % 2 ^ 64),
      length-to_le_bytes 8 (b * 8 % 2 ^ 64),
    )

module _ ⦃c : Crates⦄ (laws : LawfulCrates c) where
  -- A nonce of 12 bytes gives a cipher and a key of 16 bytes for the hash.
  pub prepare_total :
      (g : Aes256GcmSiv) (nonce : Bytes)
      → length nonce ≡ 12
      → (aes : Aes256) × (key : Bytes) × (prepare g nonce ≡ done (aes, key)) × (length key ≡ 16)
  unfolding prepare derive_keys Aes.new
  prepare_total g nonce h =
      let input = key_input nonce in
      let size = length-key_input nonce h in
      let pad = each_block g.key_generator 8 input in
      let made = encrypt-each_block g.key_generator laws 8 input size in
      let (one, two) =
        length-split_keys pad (length-each_block g.key_generator laws 8 input size) in
      let fits : (length nonce == 12) ≡ true = ground arith in
      let fits' : (length (split_keys pad).0 == 32) ≡ true = ground arith in
      (record { key = (split_keys pad).0 }, (split_keys pad).1, rw (fits, made, fits') refl, two)

  -- With such a key the tag of any text is computed, of 16 bytes.
  pub compute_tag_total :
      (buffer associated_data nonce key : Bytes) (aes : Aes256)
      → length key ≡ 16
      → (tag : Bytes) × (compute_tag buffer associated_data nonce key aes ≡ done tag)
        × (length tag ≡ 16)
  unfolding compute_tag Polyval.update_padded Polyval.finalize
  compute_tag_total buffer associated_data nonce key aes h =
      let lengths = length_block (length associated_data) (length buffer) in
      let sized = length-length_block (length associated_data) (length buffer) in
      let s : Polyval = record {
        state = c.hash_update_padded (c.hash_update_padded (c.hash_new key) associated_data) buffer;
      } in
      let hashed = c.hash_finalize (c.hash_update s.state lengths) in
      let mixed = xor_into hashed (take 12 nonce) in
      let input = clear_top_bit mixed in
      let size : length input ≡ 16 * 1 = omega (
        arith,
        length-clear_top_bit mixed,
        length-xor_into hashed (take 12 nonce),
        laws.hash_length (c.hash_update s.state lengths),
      ) in
      (
        each_block aes 1 input,
        rw (Polyval.new_lem key h)
            (rw (Polyval.update_lem s lengths sized) (encrypt-each_block aes laws 1 input size)),
        length-each_block aes laws 1 input size,
      )
