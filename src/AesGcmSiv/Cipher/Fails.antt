-- ===== src/AesGcmSiv/Cipher/Fails.antt =====
-- What decryption of rust/aes-gcm-siv/src/aes_gcm_siv.rs leaves behind when it fails.
use libsignal_client.Common.{
  ℕ, ◌≡◌, ◌<◌, ◌⊎◌, subst, sym, inl, inr, false, Bool-cases, length, replicate, ◌==◌, ==_iff,
  ltb→lt, ltb→le, ltb,
}
use libsignal_client.Common.Bytes.{Bytes}
use libsignal_client.AesGcmSiv.{
  Outcome, Error, failed, invalid_tag, invalid_nonce_size, invalid_input_size, Crates, LawfulCrates,
}
use libsignal_client.AesGcmSiv.Cipher.{Aes256GcmSiv, aad_max, ptext_max, decrypt}
use libsignal_client.AesGcmSiv.Cipher.Inverse.{decrypt_refused}

-- What the guards of decryption refuse, each with its error.
pub data Refused (nonce associated_data tag b : Bytes) : Error → Type 0 where
  bad_nonce : ¬ (length nonce ≡ 12) → Refused nonce associated_data tag b invalid_nonce_size
  bad_tag : ¬ (length tag ≡ 16) → Refused nonce associated_data tag b invalid_tag
  long_text : ptext_max < length b → Refused nonce associated_data tag b invalid_input_size
  long_data :
      aad_max < length associated_data → Refused nonce associated_data tag b invalid_input_size

refused :
    (nonce associated_data tag b b' : Bytes) {e e' : Error}
    → Refused nonce associated_data tag b e'
    → Path (Outcome (Unit {0}) × Bytes) (failed e', b) (failed e, b')
    → Refused nonce associated_data tag b e × (b' ≡ b)
refused nonce associated_data tag b b' {e} {e'} why out =
    let same : e' ≡ e = cc in
    (subst (Refused nonce associated_data tag b) same why, sym (λ i. (out i).1))

not_equal : (n m : ℕ) → (n == m) ≡ false → ¬ (n ≡ m)
not_equal n m bad same = let equal = (==_iff n m).1 same in cc

-- Whatever the nonce, the associated data, the buffer and the tag: a decryption that fails either
-- was refused for the length of one of them, with the error for that length and the buffer as it
-- was, or fails with `invalid_tag` and leaves nothing but zeros in the buffer, of the same length.
pub decrypt_fails :
    ⦃c : Crates⦄
    → LawfulCrates c
    → (g : Aes256GcmSiv) (nonce associated_data b tag b' : Bytes) (e : Error)
    → decrypt g b nonce associated_data tag ≡ (failed e, b')
    → (Refused nonce associated_data tag b e × (b' ≡ b))
      ⊎ ((e ≡ invalid_tag) × (b' ≡ replicate (length b) 0))
unfolding decrypt
decrypt_fails laws g nonce associated_data b tag b' e h = elim (Bool-cases (length nonce == 12)) [
  | inr bad ↦ inl (
      refused nonce associated_data tag b b' (bad_nonce (not_equal (length nonce) 12 bad))
        (rw bad at h))
  | inl ok_nonce ↦ elim (Bool-cases (length tag == 16)) [
    | inr bad ↦ inl (
        refused nonce associated_data tag b b' (bad_tag (not_equal (length tag) 16 bad))
          (rw (ok_nonce, bad) at h))
    | inl ok_tag ↦ elim (Bool-cases (ltb ptext_max (length b))) [
      | inl long ↦ inl (
          refused nonce associated_data tag b b' (long_text (ltb→lt ptext_max (length b) long))
            (rw (ok_nonce, ok_tag, long) at h))
      | inr short ↦ elim (Bool-cases (ltb aad_max (length associated_data))) [
        | inl long ↦ inl (
            refused nonce associated_data tag b b'
              (long_data (ltb→lt aad_max (length associated_data) long))
              (rw (ok_nonce, ok_tag, short, long) at h))
        | inr few ↦ inr (
            decrypt_refused laws g nonce associated_data ((==_iff (length nonce) 12).0 ok_nonce)
              (ltb→le aad_max (length associated_data) few) b tag b' e
              ((==_iff (length tag) 16).0 ok_tag) (ltb→le ptext_max (length b) short) h)
      ]
    ]
  ]
]
