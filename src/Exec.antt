-- ===== src/Exec.antt =====
-- Functions over `&mut` state that may fail. What was written before an error stays written, so
-- the state comes back beside the error too.
pub mod Keeps
use libsignal_client.Common.{◌≡◌, refl, Bool, true, false}
use libsignal_client.Error.{SignalProtocolError, Result, ok, err}

abbrev pub Exec {ℓ κ} : Type ℓ → Type κ → Type (ℓ ⊔ κ)
Exec S A = S → Result A × S

module _ {ℓ κ} {S : Type ℓ} {A : Type κ} where
  abbrev pub pure : A → Exec S A
  pure a s = (ok a, s)

  abbrev pub raise : SignalProtocolError → Exec S A
  raise e s = (err e, s)

  -- A computation that does not touch the state.
  abbrev pub lift : Result A → Exec S A
  lift r s = (r, s)

  -- A method by `&self`.
  abbrev pub query : (S → Result A) → Exec S A
  query f s = (f s, s)

  abbrev pub gets : (S → A) → Exec S A
  gets f s = (ok (f s), s)

  abbrev settle : S → Result (A × S) → Result A × S
  settle s (ok (a, s')) = (ok a, s')
  settle s (err e) = (err e, s)

  -- A method by `&mut self` that has written nothing where it fails.
  abbrev pub update : (S → Result (A × S)) → Exec S A
  update f s = settle s (f s)

module _ {ℓ} {S : Type ℓ} where
  abbrev pub modify : (S → S) → Exec S (Unit {0})
  modify f s = (ok tt, f s)

  abbrev settle_unit : S → Result S → Result (Unit {0}) × S
  settle_unit s (ok s') = (ok tt, s')
  settle_unit s (err e) = (err e, s)

  -- The same for a method that returns nothing.
  abbrev pub change : (S → Result S) → Exec S (Unit {0})
  change f s = settle_unit s (f s)

module _ {ℓ κ μ} {S : Type ℓ} {A : Type κ} {B : Type μ} where
  abbrev continue : Result A → S → (A → Exec S B) → Result B × S
  continue (ok a) s f = f a s
  continue (err e) s f = (err e, s)

  infixl 5 ◌>>=◌ ◌>>◌
  abbrev pub ◌>>=◌ : Exec S A → (A → Exec S B) → Exec S B
  ◌>>=◌ m f s = let r = m s in continue r.0 r.1 f

  abbrev pub ◌>>◌ : Exec S A → Exec S B → Exec S B
  m >> k = m >>= λ _. k

-- `if !test { return Err(e) }`
abbrev pub ensure {ℓ} : {S : Type ℓ} → Bool → SignalProtocolError → Exec S (Unit {0})
ensure true e = pure tt
ensure false e = raise e

-- Inversion of a successful bind.
pub >>=-eq-ok {ℓ κ μ} :
    {S : Type ℓ} {A : Type κ} {B : Type μ} (m : Exec S A) (f : A → Exec S B) (s : S) {b : B} {t : S}
    → (m >>= f) s ≡ (ok b, t)
    → (a : A) × (u : S) × (m s ≡ (ok a, u)) × (f a u ≡ (ok b, t))
>>=-eq-ok {S = S} {A = A} {B = B} m f s {b} {t} h = go (m s) refl h
  where
    go :
        (r : Result A × S)
        → m s ≡ r
        → continue r.0 r.1 f ≡ (ok b, t)
        → (a : A) × (u : S) × (m s ≡ (ok a, u)) × (f a u ≡ (ok b, t))
    go (ok a, u) e k = (a, u, e, k)
    go (err x, u) e k = cc
