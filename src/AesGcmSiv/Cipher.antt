-- ===== src/AesGcmSiv/Cipher.antt =====
-- rust/aes-gcm-siv/src/aes_gcm_siv.rs: keys for a nonce, the tag of a text, and the two operations on
-- a buffer that is changed in place.
pub mod Steps
pub mod Inverse
pub mod Fails
use Prim.Native.Nat.{bit_and}
use libsignal_client.Common.{
  ℕ, zero, suc, ◌+◌, ◌*◌, ◌%◌, ◌^◌, not, ◌||◌, Option, none, some, [], ◌∷◌, ◌++◌, length, take,
  slice, set, get_elem?, replicate, ltb, ◌==◌, if◌then◌else◌,
}
use libsignal_client.Common.Bytes.{Bytes}
use libsignal_client.AesGcmSiv.{
  Outcome, done, failed, ◌>>=◌, Crates, invalid_nonce_size, invalid_input_size, invalid_tag,
}
use libsignal_client.AesGcmSiv.Words.{to_le_bytes, xor_into}
use libsignal_client.AesGcmSiv.Aes
use libsignal_client.AesGcmSiv.Aes.{Aes256}
use libsignal_client.AesGcmSiv.Polyval
use libsignal_client.AesGcmSiv.Stream.{ctr32}

abbrev pub aad_max : ℕ
aad_max = 2 ^ 36

abbrev pub ptext_max : ℕ
ptext_max = 2 ^ 36

pub record Aes256GcmSiv : Type 0 where
  pub key_generator : Aes256

unfoldable pub new : Bytes → Outcome Aes256GcmSiv
new key = do key_generator ← Aes.new key; done (record { key_generator = key_generator })

-- So many input blocks from a number on.
unfoldable pub input_blocks : ℕ → ℕ → Bytes → Bytes
input_blocks zero i nonce = []
input_blocks (suc n) i nonce = to_le_bytes 4 i ++ (nonce ++ input_blocks n (suc i) nonce)

-- Six blocks are filled, and two stay zero.
unfoldable pub key_input : Bytes → Bytes
unfolding input_blocks replicate
key_input nonce = input_blocks 6 0 nonce ++ replicate 32 0

-- The halves of the blocks that make the two keys, the block cipher's first.
unfoldable pub split_keys : Bytes → Bytes × Bytes
unfolding slice
split_keys pad = (
  slice 32 40 pad ++ slice 48 56 pad ++ slice 64 72 pad ++ slice 80 88 pad,
  slice 0 8 pad ++ slice 16 24 pad,
)

unfoldable pub length_block : ℕ → ℕ → Bytes
unfolding to_le_bytes
length_block associated_data_len buffer_len =
    to_le_bytes 8 (associated_data_len * 8 % 2 ^ 64) ++ to_le_bytes 8 (buffer_len * 8 % 2 ^ 64)

abbrev set_low : Option ℕ → Bytes → Bytes
unfolding set
set_low none tag = tag
set_low (some b) tag = set tag 15 (bit_and b 0x7f)

-- `tag[15] &= 0x7f`
unfoldable pub clear_top_bit : Bytes → Bytes
unfolding get_elem? set_low
clear_top_bit tag = set_low (get_elem? tag 15) tag

module _ ⦃c : Crates⦄ where
  unfoldable pub derive_keys : Aes256GcmSiv → Bytes → Outcome (Bytes × Bytes)
  unfolding key_input split_keys
  derive_keys g nonce =
      if not (length nonce == 12)
      then failed invalid_nonce_size
      else (do pad ← Aes.encrypt g.key_generator (key_input nonce); done (split_keys pad))

  unfoldable pub compute_tag : Bytes → Bytes → Bytes → Bytes → Aes256 → Outcome Bytes
  unfolding length_block clear_top_bit take
  compute_tag buffer associated_data nonce polyval_key aes256 = do
    fresh ← Polyval.new polyval_key
    with_data ← Polyval.update_padded fresh associated_data
    with_text ← Polyval.update_padded with_data buffer
    with_lengths ← Polyval.update with_text (length_block (length associated_data) (length buffer))
    tag ← Polyval.finalize with_lengths
    Aes.encrypt aes256 (clear_top_bit (xor_into tag (take 12 nonce)))

  -- The keys of a nonce, as a cipher and the key of the hash.
  unfoldable pub prepare : Aes256GcmSiv → Bytes → Outcome (Aes256 × Bytes)
  prepare g nonce = do keys ← derive_keys g nonce; aes256 ← Aes.new keys.0; done (aes256, keys.1)

  -- The stream, and the tag if it did not fail.
  abbrev finish_encrypt : Outcome (Unit {0}) × Bytes → Bytes → Outcome Bytes × Bytes
  finish_encrypt (failed e, buffer) tag = (failed e, buffer)
  finish_encrypt (done _, buffer) tag = (done tag, buffer)

  abbrev encrypt_tagged : Outcome Bytes → Aes256 → Bytes → Outcome Bytes × Bytes
  encrypt_tagged (failed e) aes256 buffer = (failed e, buffer)
  encrypt_tagged (done tag) aes256 buffer = finish_encrypt (ctr32 buffer tag aes256) tag

  abbrev encrypt_prepared : Outcome (Aes256 × Bytes) → Bytes → Bytes → Bytes → Outcome Bytes × Bytes
  encrypt_prepared (failed e) buffer nonce associated_data = (failed e, buffer)
  encrypt_prepared (done (aes256, polyval_key)) buffer nonce associated_data =
      encrypt_tagged (compute_tag buffer associated_data nonce polyval_key aes256) aes256 buffer

  unfoldable pub encrypt : Aes256GcmSiv → Bytes → Bytes → Bytes → Outcome Bytes × Bytes
  encrypt g buffer nonce associated_data =
      if ltb ptext_max (length buffer) || ltb aad_max (length associated_data)
      then (failed invalid_input_size, buffer)
      else encrypt_prepared (prepare g nonce) buffer nonce associated_data

  -- The comparison of the tags; the buffer is zeroed where they differ.
  abbrev compare_tags : Outcome Bytes → Bytes → Bytes → Outcome (Unit {0}) × Bytes
  compare_tags (failed e) tag buffer = (failed e, buffer)
  compare_tags (done gtag) tag buffer =
      if c.ct_eq tag gtag
      then (done tt, buffer)
      else (failed invalid_tag, replicate (length buffer) 0)

  abbrev finish_decrypt :
      Outcome (Unit {0}) × Bytes
      → Aes256
      → Bytes
      → Bytes
      → Bytes
      → Bytes
      → Outcome (Unit {0}) × Bytes
  finish_decrypt (failed e, buffer) aes256 polyval_key nonce associated_data tag =
      (failed e, buffer)
  finish_decrypt (done _, buffer) aes256 polyval_key nonce associated_data tag =
      compare_tags (compute_tag buffer associated_data nonce polyval_key aes256) tag buffer

  abbrev decrypt_prepared :
      Outcome (Aes256 × Bytes) → Bytes → Bytes → Bytes → Bytes → Outcome (Unit {0}) × Bytes
  decrypt_prepared (failed e) buffer nonce associated_data tag = (failed e, buffer)
  decrypt_prepared (done (aes256, polyval_key)) buffer nonce associated_data tag =
      finish_decrypt (ctr32 buffer tag aes256) aes256 polyval_key nonce associated_data tag

  unfoldable pub decrypt : Aes256GcmSiv → Bytes → Bytes → Bytes → Bytes → Outcome (Unit {0}) × Bytes
  decrypt g buffer nonce associated_data tag =
      if not (length nonce == 12)
      then (failed invalid_nonce_size, buffer)
      else if not (length tag == 16)
      then (failed invalid_tag, buffer)
      else if ltb ptext_max (length buffer) || ltb aad_max (length associated_data)
      then (failed invalid_input_size, buffer)
      else decrypt_prepared (prepare g nonce) buffer nonce associated_data tag
