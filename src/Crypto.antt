-- ===== src/Crypto.antt =====
-- rust/protocol/src/crypto.rs
use libsignal_client.Common.{◌%◌, ◌≡◌, refl, [], ◌∷◌, arith, length, ◌==◌, ◌&&◌, not, if◌then◌else◌}
use libsignal_client.Common.Bytes.{Bytes}
use libsignal_client.Error.{
  Result, ok, err, ok_or, invalid_ciphertext, invalid_cipher_cryptographic_parameters,
}
use libsignal_client.Primitives.{Primitives, Lawful}

module _ ⦃p : Primitives⦄ where
  unfoldable pub hmac_sha256 : Bytes → Bytes → Bytes
  hmac_sha256 key input = p.hmac key input

  -- `Cbc::new_var` refuses a key or a vector of another length.
  unfoldable pub aes_256_cbc_encrypt : Bytes → Bytes → Bytes → Result Bytes
  aes_256_cbc_encrypt ptext key iv =
      if length key == 32 && length iv == 16
      then ok (p.cbc_encrypt key iv ptext)
      else err (invalid_cipher_cryptographic_parameters (length key) (length iv))

  unfoldable pub aes_256_cbc_decrypt : Bytes → Bytes → Bytes → Result Bytes
  aes_256_cbc_decrypt ctext key iv =
      if length ctext == 0
      then err invalid_ciphertext
      else if not (length ctext % 16 == 0)
      then err invalid_ciphertext
      else if length key == 32 && length iv == 16
      then ok_or (p.cbc_decrypt key iv ctext) invalid_ciphertext
      else err (invalid_cipher_cryptographic_parameters (length key) (length iv))

  length-eq-zero : (b : Bytes) → length b ≡ 0 → b ≡ []
  length-eq-zero [] h = refl
  length-eq-zero (x ∷ b) h = absurd (omega arith)

  -- What was encrypted is decrypted under the same key and vector.
  pub decrypt-encrypt :
      (laws : Lawful p) (ptext key iv : Bytes) {ctext : Bytes}
      → aes_256_cbc_encrypt ptext key iv ≡ ok ctext
      → aes_256_cbc_decrypt ctext key iv ≡ ok ptext
  unfolding aes_256_cbc_encrypt aes_256_cbc_decrypt
  decrypt-encrypt laws ptext key iv h = ground (
    arith,
    laws.cbc_round key iv ptext,
    laws.cbc_blocks key iv ptext,
    λ (e : length (p.cbc_encrypt key iv ptext) ≡ 0).
        laws.cbc_padded key iv ptext (length-eq-zero (p.cbc_encrypt key iv ptext) e),
  )
