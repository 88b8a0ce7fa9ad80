-- ===== src/AesGcmSiv/Cipher/Inverse.antt =====
-- Encryption and decryption of rust/aes-gcm-siv/src/aes_gcm_siv.rs undo each other, and nothing
-- else is decrypted.
use libsignal_client.Common.{
  ◌≡◌, ◌≤◌, refl, ap, sym, ◌∙◌, ◌↔◌, inl, inr, true, Bool-cases, length, replicate, All, arith,
  ◌==◌, ==_iff, le→ltb,
}
use libsignal_client.Common.Bytes.{Bytes, IsByte}
use libsignal_client.AesGcmSiv.{Outcome, Error, done, failed, invalid_tag, Crates, LawfulCrates}
use libsignal_client.AesGcmSiv.Aes.{Aes256}
use libsignal_client.AesGcmSiv.Stream.{ctr32, ctr32-twice}
use libsignal_client.AesGcmSiv.Cipher.{
  Aes256GcmSiv, aad_max, ptext_max, encrypt, decrypt, prepare, compute_tag, compare_tags,
}
use libsignal_client.AesGcmSiv.Cipher.Steps.{prepare_total, compute_tag_total}

module _ ⦃c : Crates⦄ (laws : LawfulCrates c) (g : Aes256GcmSiv) (nonce associated_data : Bytes)
    (sized : length nonce ≡ 12) (few : length associated_data ≤ aad_max) where
  -- Encryption of a text of allowed size succeeds.
  encrypt_total :
      (p : Bytes)
      → length p ≤ ptext_max
      → (tag b : Bytes) × (encrypt g p nonce associated_data ≡ (done tag, b))
        × (length tag ≡ 16)
        × (length b ≡ length p)
  unfolding encrypt
  encrypt_total p fits =
      let (aes, key, prepared, size) = prepare_total laws g nonce sized in
      let (tag, made, width) = compute_tag_total laws p associated_data nonce key aes size in
      let (b, run, len, back) = ctr32-twice laws tag aes width p in
      (
        tag,
        b,
        rw
            (
              le→ltb ptext_max (length p) fits,
              le→ltb aad_max (length associated_data) few,
              prepared,
              made,
              run,
            )
            refl,
        width,
        len,
      )

  -- What decryption comes to past its guards.
  decrypt_run :
      (aes : Aes256) (key tag b p : Bytes)
      → prepare g nonce ≡ done (aes, key)
      → length tag ≡ 16
      → length b ≤ ptext_max
      → ctr32 b tag aes ≡ (done tt, p)
      → decrypt g b nonce associated_data tag
        ≡ compare_tags (compute_tag p associated_data nonce key aes) tag p
  unfolding decrypt
  decrypt_run aes key tag b p prepared width fits run =
      let ok_nonce : (length nonce == 12) ≡ true = ground arith in
      let ok_tag : (length tag == 16) ≡ true = ground arith in
      rw
        (
          ok_nonce,
          ok_tag,
          le→ltb ptext_max (length b) fits,
          le→ltb aad_max (length associated_data) few,
          prepared,
          run,
        )
        refl

  decrypt-encrypt :
      (p b tag : Bytes)
      → length p ≤ ptext_max
      → All IsByte p
      → encrypt g p nonce associated_data ≡ (done tag, b)
      → decrypt g b nonce associated_data tag ≡ (done tt, p)
  unfolding encrypt
  decrypt-encrypt p b tag fits bytes h =
      let (aes, key, prepared, size) = prepare_total laws g nonce sized in
      let (tag', made, width) = compute_tag_total laws p associated_data nonce key aes size in
      let (b', run, len, back) = ctr32-twice laws tag' aes width p in
      let h' : Path (Outcome Bytes × Bytes) (done tag', b') (done tag, b) =
        rw
          (
            le→ltb ptext_max (length p) fits,
            le→ltb aad_max (length associated_data) few,
            prepared,
            made,
            run,
          )
          at h in
      let e : tag' ≡ tag = cc in
      let e' : b' ≡ b = cc in
      rw (sym e, sym e')
        (decrypt_run aes key tag' b' p prepared width (omega arith) (back bytes)
          ∙ rw (made, (laws.ct_eq_iff tag' tag').1 refl) refl)

  encrypt-decrypt :
      (b p tag : Bytes)
      → length b ≤ ptext_max
      → length p ≤ ptext_max
      → All IsByte b
      → decrypt g b nonce associated_data tag ≡ (done tt, p)
      → encrypt g p nonce associated_data ≡ (done tag, b)
  unfolding encrypt decrypt
  encrypt-decrypt b p tag fits fits' bytes h = elim (Bool-cases (length tag == 16)) [
    | inr bad ↦
        let ok_nonce : (length nonce == 12) ≡ true = ground arith in cc (rw (ok_nonce, bad) at h)
    | inl good ↦
        let width = (==_iff (length tag) 16).0 good in
        let (aes, key, prepared, size) = prepare_total laws g nonce sized in
        let (p', run, len, back) = ctr32-twice laws tag aes width b in
        let (gtag, made, wide) = compute_tag_total laws p' associated_data nonce key aes size in
        let ran = sym (decrypt_run aes key tag b p' prepared width fits run) ∙ h in
        elim (Bool-cases (c.ct_eq tag gtag)) [
          | inr differ ↦ cc (rw (made, differ) at ran)
          | inl same ↦
              let e : tag ≡ gtag = (laws.ct_eq_iff tag gtag).0 same in
              let e' : p' ≡ p = cc (rw (made, same) at ran) in
              let made' : compute_tag p associated_data nonce key aes ≡ done tag =
                sym (ap (λ (x : Bytes). compute_tag x associated_data nonce key aes) e')
                ∙ made
                ∙ ap done (sym e) in
              let back' : ctr32 p tag aes ≡ (done tt, b) =
                sym (ap (λ (x : Bytes). ctr32 x tag aes) e') ∙ back bytes in
              rw
                (
                  le→ltb ptext_max (length p) fits',
                  le→ltb aad_max (length associated_data) few,
                  prepared,
                  made',
                  back',
                )
                refl
        ]
  ]

  -- For byte strings and associated data of allowed size and a nonce of 12 bytes: a buffer and a tag are decrypted to a
  -- text exactly when the text is encrypted to them under the same key, nonce and associated data.
  pub decrypt_iff :
      (b p tag : Bytes)
      → length b ≤ ptext_max
      → length p ≤ ptext_max
      → All IsByte b
      → All IsByte p
      → (decrypt g b nonce associated_data tag ≡ (done tt, p))
        ↔ (encrypt g p nonce associated_data ≡ (done tag, b))
  decrypt_iff b p tag fits fits' bytes bytes' =
      (encrypt-decrypt b p tag fits fits' bytes, decrypt-encrypt p b tag fits' bytes')

  -- Under a nonce of 12 bytes and with associated data of allowed size, a byte string of allowed size
  -- is encrypted in place to a buffer of its length with a tag of 16 bytes, and these are decrypted to
  -- the byte string.
  pub encrypt_round :
      (p : Bytes)
      → length p ≤ ptext_max
      → All IsByte p
      → (tag b : Bytes) × (encrypt g p nonce associated_data ≡ (done tag, b))
        × (length tag ≡ 16)
        × (length b ≡ length p)
        × (decrypt g b nonce associated_data tag ≡ (done tt, p))
  encrypt_round p fits bytes =
      let (tag, b, made, width, len) = encrypt_total p fits in
      (tag, b, made, width, len, decrypt-encrypt p b tag fits bytes made)

  -- A decryption that fails past its guards.
  pub decrypt_refused :
      (b tag b' : Bytes) (e : Error)
      → length tag ≡ 16
      → length b ≤ ptext_max
      → decrypt g b nonce associated_data tag ≡ (failed e, b')
      → (e ≡ invalid_tag) × (b' ≡ replicate (length b) 0)
  decrypt_refused b tag b' e width fits h =
      let (aes, key, prepared, size) = prepare_total laws g nonce sized in
      let (p, run, len, back) = ctr32-twice laws tag aes width b in
      let (gtag, made, wide) = compute_tag_total laws p associated_data nonce key aes size in
      let ran = sym (decrypt_run aes key tag b p prepared width fits run) ∙ h in
      elim (Bool-cases (c.ct_eq tag gtag)) [
        | inl same ↦ cc (rw (made, same) at ran)
        | inr differ ↦
            let out = rw (made, differ) at ran in
            let zeros : replicate (length p) 0 ≡ b' = λ i. (out i).1 in
            (cc, sym zeros ∙ rw len refl)
      ]
