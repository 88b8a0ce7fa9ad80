-- ===== src/Examples/Siv.antt =====
-- A block cipher and a hash that satisfy the laws of AesGcmSiv, and its properties at inputs.
use libsignal_client.Common.{
  ℕ, ◌+◌, ◌%◌, ◌≡◌, ◌↔◌, ◌⊎◌, refl, [], ◌∷◌, ◌++◌, map, length, All, replicate, arith,
}
use libsignal_client.Common.Bytes.{Bytes, IsByte, bytes_eq, bytes_eq_iff}
use libsignal_client.AesGcmSiv.{done, failed, invalid_tag, Crates, LawfulCrates}
use libsignal_client.AesGcmSiv.Aes.{Aes256, each_block, encrypt-each_block}
use libsignal_client.AesGcmSiv.Aes
use libsignal_client.AesGcmSiv.Aes.{each_block, encrypt-each_block}
use libsignal_client.AesGcmSiv.Cipher.{
  Aes256GcmSiv, encrypt, decrypt, prepare, derive_keys, compute_tag,
}
use libsignal_client.AesGcmSiv.Stream.{ctr32}
use libsignal_client.AesGcmSiv.Words.{to_le_bytes}
use libsignal_client.AesGcmSiv.Polyval
use libsignal_client.AesGcmSiv.Cipher.Inverse.{decrypt_iff, encrypt_round}
use libsignal_client.AesGcmSiv.Cipher.Fails.{Refused, decrypt_fails}

unfoldable pub shift : Bytes → Bytes
shift [] = []
shift (b ∷ bs) = ((b + 7) % 256) ∷ shift bs

length-shift : (b : Bytes) → length (shift b) ≡ length b
unfolding shift
length-shift [] = refl
length-shift (x ∷ b) = omega (arith, length-shift b)

shift-IsByte : (b : Bytes) → All IsByte (shift b)
unfolding shift
shift-IsByte [] = tt
shift-IsByte (x ∷ b) = (omega arith, shift-IsByte b)

unfoldable pub total : Bytes → ℕ
total [] = 0
total (b ∷ bs) = b + total bs

instance abbrev crates : Crates
unfolding shift total replicate
crates = record {
  encrypt_block = λ k b. shift b;
  encrypt_blocks = λ k bs. map shift bs;
  par_blocks = 8;
  hash_new = λ k. k;
  hash_update = λ s b. s ++ b;
  hash_update_padded = λ s b. s ++ b;
  hash_finalize = λ s. replicate 16 (total s % 256);
  ct_eq = bytes_eq;
}

crates-Lawful : LawfulCrates crates
unfolding replicate crates
crates-Lawful = record {
  par_blocks_pos = omega arith;
  blocks_apart = λ k bs. refl;
  block_length = λ k b h. omega (arith, length-shift b);
  block_bytes = λ k b h. shift-IsByte b;
  hash_length = λ s. refl;
  ct_eq_iff = bytes_eq_iff;
}

abbrev cipher : Aes256GcmSiv
unfolding replicate
cipher = record { key_generator = record { key = replicate 32 5 } }

abbrev nonce : Bytes
unfolding replicate
nonce = replicate 12 9

abbrev text : Bytes
text = 104 ∷ 105 ∷ []

abbrev tag : Bytes
unfolding replicate
tag = replicate 16 3

encrypt_round_example :
    (t b : Bytes) × (encrypt cipher text nonce (1 ∷ []) ≡ (done t, b))
    × (length t ≡ 16)
    × (length b ≡ length text)
    × (decrypt cipher b nonce (1 ∷ []) t ≡ (done tt, text))
unfolding replicate
encrypt_round_example =
    encrypt_round crates-Lawful cipher nonce (1 ∷ []) refl (omega arith) text (omega arith)
      (omega arith)

decrypt_iff_example :
    (decrypt cipher text nonce (1 ∷ []) tag ≡ (done tt, 3 ∷ 4 ∷ []))
    ↔ (encrypt cipher (3 ∷ 4 ∷ []) nonce (1 ∷ []) ≡ (done tag, text))
unfolding replicate
decrypt_iff_example =
    decrypt_iff crates-Lawful cipher nonce (1 ∷ []) refl (omega arith) text (3 ∷ 4 ∷ []) tag
      (omega arith) (omega arith) (omega arith) (omega arith)

forged : decrypt cipher text nonce (1 ∷ []) tag ≡ (failed invalid_tag, 0 ∷ 0 ∷ [])
unfolding decrypt nonce tag crates prepare derive_keys compute_tag ctr32 Aes.encrypt Aes.new
    to_le_bytes Polyval.new Polyval.update_padded Polyval.update Polyval.finalize bytes_eq
forged = refl

decrypt_fails_example :
    (Refused nonce (1 ∷ []) tag text invalid_tag × (◌≡◌ {A = Bytes} (0 ∷ 0 ∷ []) text))
    ⊎ ((invalid_tag ≡ invalid_tag) × (◌≡◌ {A = Bytes} (0 ∷ 0 ∷ []) (replicate (length text) 0)))
decrypt_fails_example =
    decrypt_fails crates-Lawful cipher nonce (1 ∷ []) text tag (0 ∷ 0 ∷ []) invalid_tag forged

encrypt-each_block_example :
    Aes.encrypt cipher.key_generator (replicate 32 8)
    ≡ done (each_block cipher.key_generator 2 (replicate 32 8))
unfolding replicate
encrypt-each_block_example =
    encrypt-each_block cipher.key_generator crates-Lawful 2 (replicate 32 8) refl
