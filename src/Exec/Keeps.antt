-- ===== src/Exec/Keeps.antt =====
-- What a computation leaves as it was, on every path and where it fails.
use libsignal_client.Common.{◌≡◌, subst, Bool, true, false}
use libsignal_client.Error.{SignalProtocolError, Result, ok, err}
use libsignal_client.Exec.{Exec, continue, ensure, ◌>>=◌}

-- A relation between states that computations keep: reflexive and transitive.
pub record Frame (S : Type 0) : Type 1 where
  pub Kept : S → S → Type 0
  pub same : (s : S) → Kept s s
  pub then_kept : (s t u : S) → Kept s t → Kept t u → Kept s u

module _ {S : Type 0} (r : Frame S) where
  abbrev pub Keeps {ℓ} : {A : Type ℓ} → Exec S A → Type 0
  Keeps m = (s : S) → r.Kept s (m s).1

  pub Keeps-at :
      {A : Type 0} (m : Exec S A) (s : S) {x : Result A} {t : S}
      → Keeps m
      → m s ≡ (x, t)
      → r.Kept s t
  Keeps-at m s k h = subst (λ (x : Result _ × S). r.Kept s x.1) h (k s)

  module _ {A B : Type 0} where
    continue_kept :
        (f : A → Exec S B) (s u : S) {x : Result B} {t : S}
        → r.Kept s u
        → ((a : A) (u : S) → f a u ≡ (x, t) → r.Kept u t)
        → (y : Result A) → continue y u f ≡ (x, t)
        → r.Kept s t
    continue_kept f s u {x} {t} h k (ok a) e = r.then_kept s u t h (k a u e)
    continue_kept f s u {x} {t} h k (err b) e = subst (r.Kept s) (λ i. (e i).1) h

    -- Two computations in a row, the second of which keeps what it keeps where it ends as it does.
    pub bind_kept :
        (m : Exec S A) (f : A → Exec S B) (s : S) {x : Result B} {t : S}
        → Keeps m
        → ((a : A) (u : S) → f a u ≡ (x, t) → r.Kept u t)
        → (m >>= f) s ≡ (x, t)
        → r.Kept s t
    bind_kept m f s h k e = continue_kept f s (m s).1 (h s) k (m s).0 e

  pub ensure-Keeps : (b : Bool) (e : SignalProtocolError) → Keeps (ensure {S = S} b e)
  ensure-Keeps true e s = r.same s
  ensure-Keeps false e s = r.same s
