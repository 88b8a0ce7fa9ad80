-- ===== src/Storage/Trust.antt =====
-- Trust on first use, of `InMemIdentityKeyStore` of rust/protocol/src/storage/inmem.rs.
use libsignal_client.Common.{
  ◌≡◌, ◌↔◌, true, Option, none, some, arith, ◌⊎◌, inl, inr, refl, ap, Option-cases, if◌then◌else◌,
}
use libsignal_client.Common.Assoc.{get, get-insert}
use libsignal_client.Address.{ProtocolAddress, address_eq, address_eq_iff, address_eq_instance}
use libsignal_client.Curve.PublicKey.{PublicKey, public_key_eq, public_key_eq_iff}
use libsignal_client.Primitives.{Primitives, Lawful}
use libsignal_client.Storage.{
  Direction, InMemIdentityKeyStore, get_identity, save_identity, is_trusted_identity,
}

module _ ⦃p : Primitives⦄ (laws : Lawful p) (address : ProtocolAddress) (identity : PublicKey)
    (s : InMemIdentityKeyStore) where
  -- A key is trusted when no key is known for the address or this one is.
  pub is_trusted_identity_iff :
      (d : Direction)
      → (is_trusted_identity address identity d s ≡ true)
        ↔ ((get_identity address s ≡ none) ⊎ (get_identity address s ≡ some identity))
  unfolding is_trusted_identity get_identity
  is_trusted_identity_iff d = go (get address s.known_keys)
    where
      go :
          (known : Option PublicKey)
          → ((elim known [ none ↦ true | some k ↦ public_key_eq k identity ]) ≡ true)
            ↔ ((known ≡ none) ⊎ (known ≡ some identity))
      go none = ((λ _. inl refl), λ _. refl)
      go (some k) = (
        (λ h. inr (ap some ((public_key_eq_iff laws k identity).0 h))),
        λ h. (public_key_eq_iff laws k identity).1 (ground (arith, h)),
      )

  -- What was saved is known, and other addresses keep what they had.
  pub get_identity-save_identity :
      (other : ProtocolAddress)
      → get_identity other (save_identity address identity s).1
        ≡ (if address_eq address other then some identity else get_identity other s)
  unfolding get_identity save_identity
  get_identity-save_identity other = elim (Option-cases (get address s.known_keys)) [
    | inl h ↦ ground (arith, h, get-insert address other identity s.known_keys)
    | inr (k, h) ↦ ground (
      arith,
      h,
      public_key_eq_iff laws k identity,
      address_eq_iff address other,
      get-insert address other identity s.known_keys,
    )
  ]
