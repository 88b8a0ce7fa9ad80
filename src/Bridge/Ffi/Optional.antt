-- ===== src/Bridge/Ffi/Optional.antt =====
-- Optional numbers through a C pointer: rust/bridge/ffi/src/util.rs. The number 0xFFFFFFFF stands
-- for no number.
use libsignal_client.Common.{
  ℕ, ◌≡◌, ◌≢◌, ◌↔◌, refl, ap, inl, inr, Bool-cases, Option, none, some, arith, ◌==◌, ==_iff,
}
use libsignal_client.Error.{ok}
use libsignal_client.Bridge.Ffi.{get_optional_uint32, write_optional_uint32_to}

-- What was written is read back exactly when it is not the number that stands for none.
pub get_optional_uint32-write_optional_uint32_to :
    (old : ℕ) (o : Option ℕ)
    → (get_optional_uint32 (write_optional_uint32_to (some old) (ok o)).1 ≡ o)
      ↔ (o ≢ some 0xFFFFFFFF)
unfolding get_optional_uint32 write_optional_uint32_to
get_optional_uint32-write_optional_uint32_to old none = ((λ h e. cc e), λ h. refl)
get_optional_uint32-write_optional_uint32_to old (some v) = (
  (λ h e. ground (arith, h, e)),
  λ h. elim (Bool-cases (v == 0xFFFFFFFF)) [
    | inl same ↦ absurd (h (ap some ((==_iff v 0xFFFFFFFF).0 same)))
    | inr other ↦ rw other refl
  ],
)
