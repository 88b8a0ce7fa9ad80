-- ===== src/Curve/Curve25519/Agreement.antt =====
-- The key pairs of rust/protocol/src/curve/curve25519.rs, and what they agree on.
use libsignal_client.Common.{ℕ, ◌≡◌, refl, ap}
use libsignal_client.Common.Bytes.{Bytes}
use libsignal_client.Curve.Curve25519.{
  Edwards, LawfulEdwards, KeyPair, new, from, derive_public_key, calculate_agreement,
}

-- The two ways in which a key pair is made.
pub data Made ⦃e : Edwards⦄ : KeyPair → Type 0 where
  generated : (csprng : ℕ) → Made (new csprng).0
  restored : (private_key : Bytes) → Made (from private_key)

module _ ⦃e : Edwards⦄ where
  -- The key pair of a secret.
  abbrev pair : e.StaticSecret → KeyPair
  pair s = record { public_key = e.public_bytes (e.public_of s); private_key = e.secret_bytes s }

  secret_of : {k : KeyPair} → Made k → (s : e.StaticSecret) × (k ≡ pair s)
  unfolding new from
  secret_of (generated csprng) = ((e.new_secret csprng).0, refl)
  secret_of (restored private_key) = (e.secret_from private_key, refl)

  module _ (laws : LawfulEdwards e) where
    -- One side of an agreement, as a multiple of the base point.
    agreed :
        (s t : e.StaticSecret)
        → e.shared_bytes (e.diffie_hellman s (e.public_of t))
          ≡ e.public_bytes (
              laws.to_montgomery (
                e.mul_base
                  (e.scalar_mul (e.from_bits (e.secret_bytes s)) (e.from_bits (e.secret_bytes t)))))
    agreed s t =
        let a = e.from_bits (e.secret_bytes s) in
        let b = e.from_bits (e.secret_bytes t) in
        rw (laws.public_of_lem t, laws.diffie_hellman_lem s (e.mul_base b), laws.mul_base-mul a b)
          refl

    swapped :
        (s t : e.StaticSecret)
        → calculate_agreement (pair s) (pair t).public_key
          ≡ calculate_agreement (pair t) (pair s).public_key
    unfolding calculate_agreement
    swapped s t =
        rw
          (
            calculate_agreement,
            laws.secret_from-secret_bytes s,
            laws.secret_from-secret_bytes t,
            laws.public_from-public_bytes (e.public_of s),
            laws.public_from-public_bytes (e.public_of t),
            agreed s t,
            agreed t s,
            laws.scalar_mul_comm (e.from_bits (e.secret_bytes s)) (e.from_bits (e.secret_bytes t)),
          )
          refl

    -- Any two key pairs, each generated or made from the bytes of a private key, compute the same
    -- agreement from each other's public key. Each keeps its private key clamped, and its private
    -- key alone gives the same pair again, and its public key.
    pub calculate_agreement-swapped :
        (k l : KeyPair)
        → Made k
        → Made l
        → (calculate_agreement k l.public_key ≡ calculate_agreement l k.public_key)
          × (e.secret_bytes (e.secret_from k.private_key) ≡ k.private_key)
          × (from k.private_key ≡ k)
          × (derive_public_key k.private_key ≡ k.public_key)
    unfolding from derive_public_key
    calculate_agreement-swapped k l made made' =
        let (s, is) = secret_of made in
        let (t, is') = secret_of made' in
        rw (is, is')
          (
            swapped s t,
            ap (λ (x : e.StaticSecret). e.secret_bytes x) (laws.secret_from-secret_bytes s),
            ap pair (laws.secret_from-secret_bytes s),
            ap (λ (x : e.StaticSecret). e.public_bytes (e.public_of x))
                (laws.secret_from-secret_bytes s),
          )
