-- ===== src/AesGcmSiv/Aes.antt =====
-- rust/aes-gcm-siv/src/aes.rs: a buffer of whole blocks is encrypted in runs of as many blocks as
-- the crate takes at a time, and what is left over block by block.
use libsignal_client.Common.{
  ℕ, zero, suc, ◌+◌, ◌-◌, ◌*◌, ◌%◌, ◌≡◌, ◌≤◌, refl, ap, sym, inl, inr, List, [], ◌∷◌, ◌++◌, map,
  length, take, drop, take-append_le, drop-append_le, take-drop, take_all, length-take, length-drop,
  length-append, All, All-append, arith, ltb, ◌==◌, if◌then◌else◌, Bool-cases, ltb→le, ltb→lt, true,
}
use mathlib.Core.Path.{◌≡⟨◌⟩◌, ◌∎}
use mathlib.Core.List.{append_assoc, append-nil}
use native.Mathlib.Nat.{zero-add}
use libsignal_client.Common.Bytes.{Bytes, IsByte}
use libsignal_client.AesGcmSiv.{
  Outcome, done, failed, invalid_key_size, invalid_output_buffer, Crates, LawfulCrates,
}

-- A cipher is its key.
pub record Aes256 : Type 0 where
  pub key : Bytes

unfoldable pub new : Bytes → Outcome Aes256
new key = if length key == 32 then done (record { key = key }) else failed invalid_key_size

-- `chunks_mut`: pieces of the size, the last one shorter. The fuel is the length of the buffer.
unfoldable pub chunks : ℕ → ℕ → Bytes → List Bytes
unfolding take drop
chunks fuel size [] = []
chunks zero size (b ∷ bs) = []
chunks (suc fuel) size (b ∷ bs) = take size (b ∷ bs) ∷ chunks fuel size (drop size (b ∷ bs))

abbrev pub concat : List Bytes → Bytes
concat [] = []
concat (b ∷ bs) = b ++ concat bs

module _ ⦃c : Crates⦄ (aes : Aes256) where
  -- One piece: as many blocks as the crate takes at once, or fewer.
  unfoldable pub encrypt_chunk : Bytes → Bytes
  unfolding chunks
  encrypt_chunk blocks =
      let each = chunks (length blocks) 16 blocks in
      if length blocks == c.par_blocks * 16
      then concat (c.encrypt_blocks aes.key each)
      else concat (map (c.encrypt_block aes.key) each)

  unfoldable pub encrypt_chunks : List Bytes → Bytes
  unfolding encrypt_chunk
  encrypt_chunks [] = []
  encrypt_chunks (b ∷ bs) = encrypt_chunk b ++ encrypt_chunks bs

  unfoldable pub encrypt : Bytes → Outcome Bytes
  unfolding encrypt_chunks chunks
  encrypt buf =
      if length buf % 16 == 0
      then done (encrypt_chunks (chunks (length buf) (c.par_blocks * 16) buf))
      else failed invalid_output_buffer

  -- Block by block.
  abbrev pub each_block : ℕ → Bytes → Bytes
  unfolding take drop
  each_block zero b = []
  each_block (suc n) b = c.encrypt_block aes.key (take 16 b) ++ each_block n (drop 16 b)

  chunks-each_block :
      (fuel n : ℕ) (b : Bytes)
      → length b ≡ 16 * n
      → n ≤ fuel
      → concat (map (c.encrypt_block aes.key) (chunks fuel 16 b)) ≡ each_block n b
  unfolding chunks take drop each_block
  chunks-each_block fuel zero [] h f = refl
  chunks-each_block fuel zero (x ∷ b) h f = absurd (omega arith)
  chunks-each_block fuel (suc n) [] h f = absurd (omega arith)
  chunks-each_block zero (suc n) (x ∷ b) h f = absurd (omega arith)
  chunks-each_block (suc fuel) (suc n) (x ∷ b) h f =
      ap (λ (t : Bytes). c.encrypt_block aes.key (take 16 (x ∷ b)) ++ t)
        (chunks-each_block fuel n (drop 16 (x ∷ b)) (omega (arith, length-drop 16 (x ∷ b)))
          (omega arith))

  each_block-append :
      (p n : ℕ) (xs ys : Bytes)
      → length xs ≡ 16 * p
      → each_block (p + n) (xs ++ ys) ≡ each_block p xs ++ each_block n ys
  unfolding each_block
  each_block-append zero n [] ys h = rw zero-add refl
  each_block-append zero n (x ∷ xs) ys h = absurd (omega arith)
  each_block-append (suc p) n xs ys h =
      let e : suc p + n ≡ suc (p + n) = omega arith in
      let front = c.encrypt_block aes.key (take 16 xs) in
      let rest = each_block-append p n (drop 16 xs) ys (omega (arith, length-drop 16 xs)) in
      rw
        (
          e,
          each_block,
          take-append_le 16 xs ys (omega arith),
          drop-append_le 16 xs ys (omega arith),
          rest,
        )
        (sym (append_assoc front (each_block p (drop 16 xs)) (each_block n ys)))

  encrypt_chunk-each_block :
      LawfulCrates c → (n : ℕ) (b : Bytes) → length b ≡ 16 * n → encrypt_chunk b ≡ each_block n b
  unfolding encrypt_chunk
  encrypt_chunk-each_block laws n b h =
      let step = chunks-each_block (length b) n b h (omega arith) in
      elim (Bool-cases (length b == c.par_blocks * 16)) [
        | inl whole ↦ rw (whole, laws.blocks_apart aes.key (chunks (length b) 16 b)) step
        | inr part ↦ rw part step
      ]

  chunk_step :
      LawfulCrates c
      → (n : ℕ) (b rest : Bytes) → length b ≡ 16 * n
      → rest ≡ each_block (n - c.par_blocks) (drop (c.par_blocks * 16) b)
      → encrypt_chunk (take (c.par_blocks * 16) b) ++ rest ≡ each_block n b
  unfolding each_block
  chunk_step laws n b rest h e = elim (Bool-cases (ltb n c.par_blocks)) [
    | inl few ↦
        let less = ltb→lt n c.par_blocks few in
        let none : n - c.par_blocks ≡ 0 = omega arith in
        rw
          (
            take_all b (c.par_blocks * 16) (omega arith),
            e,
            none,
            append-nil,
            encrypt_chunk-each_block laws n b h,
          )
          refl
    | inr many ↦
        let le = ltb→le n c.par_blocks many in
        let u = c.par_blocks * 16 in
        let size : length (take u b) ≡ 16 * c.par_blocks = omega (arith, length-take u b) in
        let sum : c.par_blocks + (n - c.par_blocks) ≡ n = omega arith in
        encrypt_chunk (take u b) ++ rest
        ≡⟨ rw (encrypt_chunk-each_block laws c.par_blocks (take u b) size, e) refl ⟩
          each_block c.par_blocks (take u b) ++ each_block (n - c.par_blocks) (drop u b)
        ≡⟨ sym (each_block-append c.par_blocks (n - c.par_blocks) (take u b) (drop u b) size) ⟩
          each_block (c.par_blocks + (n - c.par_blocks)) (take u b ++ drop u b)
        ≡⟨ rw (take-drop u b, sum) refl ⟩ each_block n b ∎
  ]

  -- The runs do not show: the chunks of a buffer are encrypted block by block.
  encrypt_chunks-each_block :
      LawfulCrates c
      → (fuel n : ℕ) (b : Bytes) → length b ≡ 16 * n
      → n ≤ fuel
      → encrypt_chunks (chunks fuel (c.par_blocks * 16) b) ≡ each_block n b
  unfolding encrypt_chunks chunks each_block
  encrypt_chunks-each_block laws fuel zero [] h f = refl
  encrypt_chunks-each_block laws fuel zero (x ∷ b) h f = absurd (omega arith)
  encrypt_chunks-each_block laws fuel (suc n) [] h f = absurd (omega arith)
  encrypt_chunks-each_block laws zero (suc n) (x ∷ b) h f = absurd (omega arith)
  encrypt_chunks-each_block laws (suc fuel) (suc n) (x ∷ b) h f =
      let u = c.par_blocks * 16 in
      let few = laws.par_blocks_pos in
      chunk_step laws (suc n) (x ∷ b) (encrypt_chunks (chunks fuel u (drop u (x ∷ b)))) h (
        encrypt_chunks-each_block laws fuel (suc n - c.par_blocks) (drop u (x ∷ b))
          (omega (arith, length-drop u (x ∷ b))) (omega arith))

  -- A buffer of whole blocks is encrypted block by block, whatever number of blocks the crate takes
  -- at a time.
  pub encrypt-each_block :
      LawfulCrates c → (n : ℕ) (b : Bytes) → length b ≡ 16 * n → encrypt b ≡ done (each_block n b)
  unfolding encrypt
  encrypt-each_block laws n b h =
      let whole : (length b % 16 == 0) ≡ true = ground arith in
      rw (whole, encrypt_chunks-each_block laws (length b) n b h (omega arith)) refl

  pub length-each_block :
      LawfulCrates c → (n : ℕ) (b : Bytes) → length b ≡ 16 * n → length (each_block n b) ≡ 16 * n
  unfolding each_block
  length-each_block laws zero b h = refl
  length-each_block laws (suc n) b h =
      let front = c.encrypt_block aes.key (take 16 b) in
      omega (
        arith,
        length-append front (each_block n (drop 16 b)),
        laws.block_length aes.key (take 16 b) (omega (arith, length-take 16 b)),
        length-each_block laws n (drop 16 b) (omega (arith, length-drop 16 b)),
      )

  pub each_block-IsByte :
      LawfulCrates c → (n : ℕ) (b : Bytes) → length b ≡ 16 * n → All IsByte (each_block n b)
  unfolding each_block
  each_block-IsByte laws zero b h = tt
  each_block-IsByte laws (suc n) b h =
      All-append IsByte (c.encrypt_block aes.key (take 16 b)) (each_block n (drop 16 b))
        (laws.block_bytes aes.key (take 16 b) (omega (arith, length-take 16 b)))
        (each_block-IsByte laws n (drop 16 b) (omega (arith, length-drop 16 b)))
