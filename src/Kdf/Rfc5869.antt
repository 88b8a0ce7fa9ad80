-- ===== src/Kdf/Rfc5869.antt =====
-- The expansion of rust/protocol/src/kdf.rs against RFC 5869, section 2.3, whose counter starts at
-- 1; version 2 of the protocol starts it at 0.
use libsignal_client.Common.{
  ℕ, zero, suc, ◌+◌, ◌-◌, ◌*◌, ◌/◌, ◌%◌, ◌≤◌, ◌<◌, ◌≡◌, refl, ap, [], ◌∷◌, ◌++◌, arith, length,
  take, replicate, length-append, length-take, drop-append, ◌∙◌,
}
use libsignal_client.Common.Bytes.{Bytes}
use libsignal_client.Error.{ok}
use libsignal_client.Primitives.{Primitives, Lawful}
use libsignal_client.Kdf.{
  Hkdf, new, extract, last_block, expand_loop, expand, derive_salted_secrets, derive_secrets,
}

module _ ⦃p : Primitives⦄ where
  -- T(i), where the counter starts at `first`.
  unfoldable pub block : ℕ → Bytes → Bytes → ℕ → Bytes
  block first prk info zero = []
  block first prk info (suc i) = p.hmac prk (block first prk info i ++ (info ++ (i + first) ∷ []))

  -- T(1) | ... | T(n)
  unfoldable pub blocks : ℕ → Bytes → Bytes → ℕ → Bytes
  blocks first prk info zero = []
  blocks first prk info (suc n) = blocks first prk info n ++ block first prk info (suc n)

module _ ⦃p : Primitives⦄ (laws : Lawful p) (first : ℕ) (prk info : Bytes) where
  length-block : (i : ℕ) → length (block first prk info (suc i)) ≡ 32
  unfolding block
  length-block i = laws.hmac_length _ _

  length-blocks : (n : ℕ) → length (blocks first prk info n) ≡ n * 32
  unfolding blocks
  length-blocks zero = omega arith
  length-blocks (suc n) = omega (
    arith,
    length-append (blocks first prk info n) (block first prk info (suc n)),
    length-block n,
    length-blocks n,
  )

  last_block-blocks : (i : ℕ) → last_block (blocks first prk info i) ≡ block first prk info i
  unfolding last_block blocks block
  last_block-blocks zero = refl
  last_block-blocks (suc i) =
      let whole = length-append (blocks first prk info i) (block first prk info (suc i)) in
      let last = length-block i in
      ground (
        arith,
        whole,
        last,
        drop-append (blocks first prk info i) (block first prk info (suc i))
            (length (blocks first prk info i ++ block first prk info (suc i)) - 32)
            (omega (arith, whole, last)),
      )

  -- One round of the loop appends the next block, as long as the counter fits a byte.
  round-blocks :
      (i : ℕ)
      → i + first < 256
      → blocks first prk info i
          ++ p.hmac prk
              (last_block (blocks first prk info i) ++ (info ++ ((i % 256 + first) % 256) ∷ []))
        ≡ blocks first prk info (suc i)
  unfolding blocks block
  round-blocks i h =
      let byte : (i % 256 + first) % 256 ≡ i + first = omega arith in rw (last_block-blocks i, byte)

  expand_loop-blocks :
      (kdf : Hkdf) (n i : ℕ)
      → kdf.iteration_start_offset ≡ first
      → i + n + first ≤ 256
      → expand_loop kdf prk info n i (blocks first prk info i) ≡ blocks first prk info (i + n)
  unfolding expand_loop
  expand_loop-blocks kdf zero i e h = ap (blocks first prk info) (omega arith)
  expand_loop-blocks kdf (suc n) i e h =
      let step : i + 1 ≡ suc i = omega arith in
      rw (e, round-blocks i (omega arith), step)
        (expand_loop-blocks kdf n (suc i) e (omega arith)
          ∙ ap (blocks first prk info) (omega arith))

module _ ⦃p : Primitives⦄ (laws : Lawful p) (prk info : Bytes) (length_wanted : ℕ) where
  expand-blocks :
      (kdf : Hkdf)
      → length_wanted ≤ 255 * 32
      → kdf.iteration_start_offset ≤ 1
      → expand kdf prk info length_wanted
        ≡ take length_wanted
            (blocks kdf.iteration_start_offset prk info ((length_wanted + 31) / 32))
  unfolding expand blocks
  expand-blocks kdf h o =
      let rounds : (length_wanted + 32 - 1) / 32 ≡ (length_wanted + 31) / 32 = omega arith in
      let start : 0 + (length_wanted + 31) / 32 ≡ (length_wanted + 31) / 32 = omega arith in
      rw rounds (
        ap (take length_wanted) (
          expand_loop-blocks laws kdf.iteration_start_offset prk info kdf
            ((length_wanted + 31) / 32) 0 refl (omega arith)
          ∙ ap (blocks kdf.iteration_start_offset prk info) start))

  -- With `HKDF::new(3)` the expansion is that of RFC 5869, for every length that RFC 5869 allows.
  pub expand-Rfc5869 :
      {kdf : Hkdf}
      → new 3 ≡ ok kdf
      → length_wanted ≤ 255 * 32
      → expand kdf prk info length_wanted
        ≡ take length_wanted (blocks 1 prk info ((length_wanted + 31) / 32))
  unfolding new
  expand-Rfc5869 {kdf} e h =
      let one : kdf.iteration_start_offset ≡ 1 = ground arith in
      rw (← one) (expand-blocks kdf h (omega arith))

module _ ⦃p : Primitives⦄ (laws : Lawful p) where
  length-expand_loop :
      (kdf : Hkdf) (prk info : Bytes) (n i : ℕ) (result : Bytes)
      → length (expand_loop kdf prk info n i result) ≡ length result + n * 32
  unfolding expand_loop
  length-expand_loop kdf prk info zero i result = omega arith
  length-expand_loop kdf prk info (suc n) i result =
      let d =
        p.hmac prk
          (last_block result ++ (info ++ ((i % 256 + kdf.iteration_start_offset) % 256) ∷ [])) in
      omega (
        arith,
        length-expand_loop kdf prk info n (i + 1) (result ++ d),
        length-append result d,
        laws.hmac_length prk
            (last_block result ++ (info ++ ((i % 256 + kdf.iteration_start_offset) % 256) ∷ [])),
      )

  pub length-derive_salted_secrets :
      (kdf : Hkdf) (ikm salt info : Bytes) (n : ℕ)
      → length (derive_salted_secrets kdf ikm salt info n) ≡ n
  unfolding derive_salted_secrets expand
  length-derive_salted_secrets kdf ikm salt info n = omega (
    arith,
    length-take n (expand_loop kdf (extract salt ikm) info ((n + 32 - 1) / 32) 0 []),
    length-expand_loop kdf (extract salt ikm) info ((n + 32 - 1) / 32) 0 [],
  )

  -- Key derivation gives as many bytes as were asked for.
  pub length-derive_secrets :
      (kdf : Hkdf) (ikm info : Bytes) (n : ℕ) → length (derive_secrets kdf ikm info n) ≡ n
  unfolding derive_secrets
  length-derive_secrets kdf ikm info n =
      length-derive_salted_secrets kdf ikm (replicate 32 0) info n
