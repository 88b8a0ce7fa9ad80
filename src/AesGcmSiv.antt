-- ===== src/AesGcmSiv.antt =====
-- rust/aes-gcm-siv: authenticated encryption with AES-256-GCM-SIV, in its portable form (the `Soft`
-- variants of `Aes256` and `Polyval`). Its outcomes (error.rs) and what other crates give stand here.
pub mod Words
pub mod Aes
pub mod Polyval
pub mod Stream
pub mod Cipher
use libsignal_client.Common.{ℕ, ◌≡◌, ◌≤◌, ◌<◌, ◌↔◌, Bool, true, List, map, length, All}
use libsignal_client.Common.Bytes.{Bytes, IsByte}

pub data Error : Type 0 where
  invalid_key_size invalid_nonce_size invalid_input_size : Error
  invalid_output_buffer invalid_tag cpuid_failure : Error

pub data Outcome (A : Type 0) : Type 0 where
  done : A → Outcome A
  failed : Error → Outcome A

infixl 5 ◌>>=◌
abbrev pub ◌>>=◌ : {A B : Type 0} → Outcome A → (A → Outcome B) → Outcome B
failed e >>= rest = failed e
done a >>= rest = rest a

-- The block cipher of the aes-soft crate, which takes `par_blocks` blocks at a time, the hash of the
-- polyval crate as a state of bytes, and the comparison of the subtle crate.
pub record Crates : Type 0 where
  pub encrypt_block : Bytes → Bytes → Bytes
  pub encrypt_blocks : Bytes → List Bytes → List Bytes
  pub par_blocks : ℕ
  pub hash_new : Bytes → Bytes
  pub hash_update : Bytes → Bytes → Bytes
  pub hash_update_padded : Bytes → Bytes → Bytes
  pub hash_finalize : Bytes → Bytes
  pub ct_eq : Bytes → Bytes → Bool

-- Their documented behaviour.
pub record LawfulCrates (c : Crates) : Type 0 where
  pub par_blocks_pos : 1 ≤ c.par_blocks
  pub blocks_apart :
      (k : Bytes) (bs : List Bytes) → c.encrypt_blocks k bs ≡ map (c.encrypt_block k) bs
  pub block_length : (k b : Bytes) → length b ≡ 16 → length (c.encrypt_block k b) ≡ 16
  pub block_bytes : (k b : Bytes) → length b ≡ 16 → All IsByte (c.encrypt_block k b)
  pub hash_length : (s : Bytes) → length (c.hash_finalize s) ≡ 16
  pub ct_eq_iff : (a b : Bytes) → (c.ct_eq a b ≡ true) ↔ (a ≡ b)
