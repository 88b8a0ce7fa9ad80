-- ===== src/Primitives.antt =====
-- What the program takes from other crates and does not implement: HMAC-SHA256 (hmac, sha2),
-- AES-256-CBC with PKCS#7 padding (aes, block_modes), X25519 and XEdDSA (curve25519-dalek,
-- x25519-dalek, behind rust/protocol/src/curve/curve25519.rs), constant-time equality (subtle), and the random generator (rand).
-- The state of a generator is a number, and drawing from it returns the next state.
use libsignal_client.Common.{ℕ, ◌%◌, ◌≡◌, ◌≢◌, ◌↔◌, Bool, true, Option, some, [], length}
use libsignal_client.Common.Bytes.{Bytes}

pub record Primitives : Type 0 where
  -- key, input: `Hmac::<Sha256>`, updates in a row being one update with their concatenation
  pub hmac : Bytes → Bytes → Bytes
  -- key, initial vector, text: `Cbc::<Aes256, Pkcs7>`, for a key of 32 bytes and a vector of 16
  pub cbc_encrypt : Bytes → Bytes → Bytes → Bytes
  pub cbc_decrypt : Bytes → Bytes → Bytes → Option Bytes
  -- private key, public key: `StaticSecret::diffie_hellman`
  pub x25519 : Bytes → Bytes → Bytes
  -- the public key of a private key
  pub x25519_public : Bytes → Bytes
  -- `StaticSecret::new`: a private key from a generator
  pub static_secret : ℕ → Bytes × ℕ
  -- private key, message, 64 random bytes
  pub xeddsa_sign : Bytes → Bytes → Bytes → Bytes
  -- public key, message, signature
  pub xeddsa_verify : Bytes → Bytes → Bytes → Bool
  -- the number of bytes, the generator
  pub fill_bytes : ℕ → ℕ → Bytes × ℕ
  -- `ConstantTimeEq::ct_eq` of byte strings
  pub ct_eq : Bytes → Bytes → Bool
  -- `gen::<[u8; 32]>`
  pub gen_32 : ℕ → Bytes × ℕ
  -- `gen::<u32>`
  pub next_u32 : ℕ → ℕ × ℕ

-- The documented behaviour of these functions that proofs may rely on.
pub record Lawful (p : Primitives) : Type 0 where
  pub hmac_length : (k m : Bytes) → length (p.hmac k m) ≡ 32
  pub cbc_round : (k iv m : Bytes) → p.cbc_decrypt k iv (p.cbc_encrypt k iv m) ≡ some m
  pub cbc_blocks : (k iv m : Bytes) → length (p.cbc_encrypt k iv m) % 16 ≡ 0
  pub cbc_padded : (k iv m : Bytes) → p.cbc_encrypt k iv m ≢ []
  pub x25519_comm : (a b : Bytes) → p.x25519 a (p.x25519_public b) ≡ p.x25519 b (p.x25519_public a)
  pub x25519_public_length : (a : Bytes) → length (p.x25519_public a) ≡ 32
  pub static_secret_length : (g : ℕ) → length (p.static_secret g).0 ≡ 32
  pub gen_32_length : (g : ℕ) → length (p.gen_32 g).0 ≡ 32
  pub ct_eq_iff : (a b : Bytes) → (p.ct_eq a b ≡ true) ↔ (a ≡ b)
  pub xeddsa_length : (k m r : Bytes) → length (p.xeddsa_sign k m r) ≡ 64
  pub xeddsa_correct :
      (k m r : Bytes) → p.xeddsa_verify (p.x25519_public k) m (p.xeddsa_sign k m r) ≡ true
