-- ===== src/Common/Bytes.antt =====
-- Byte strings are lists of numbers; their equality as a Boolean test.
use Prim.Native.Nat.{ℕ, ◌<◌}
use mathlib.Core.Option.{Option, none, some}
use libsignal_client.Common.Lists.{get_elem?}
use Prim.Native.Char.{code}
use Prim.Native.String.{String}
use mathlib.Core.Path.{◌≡◌, refl}
use mathlib.Core.Logic.{◌↔◌}
use mathlib.Core.Bool.{Bool, true, false, ◌&&◌}
use mathlib.Core.List.{List, [], ◌∷◌}
use native.Mathlib.Omega.{arith}
use libsignal_client.Common.Tests.{◌==◌}
use libsignal_client.Common.Assoc.{Eq}

abbrev pub Bytes : Type 0
Bytes = List ℕ

-- A byte string literal, `b"..."`: the code points of an ASCII text.
unfoldable pub ascii : String → Bytes
ascii String.[] = []
ascii (String.◌∷◌ c s) = code c ∷ ascii s

unfoldable pub bytes_eq : Bytes → Bytes → Bool
bytes_eq [] [] = true
bytes_eq [] (b ∷ bs) = false
bytes_eq (a ∷ as') [] = false
bytes_eq (a ∷ as') (b ∷ bs) = a == b && bytes_eq as' bs

pub bytes_eq_iff : (a b : Bytes) → (bytes_eq a b ≡ true) ↔ (a ≡ b)
unfolding bytes_eq
bytes_eq_iff [] [] = ((λ _. refl), λ _. refl)
bytes_eq_iff [] (b ∷ bs) = ((λ h. cc), λ h. cc)
bytes_eq_iff (a ∷ xs) [] = ((λ h. cc), λ h. cc)
bytes_eq_iff (a ∷ xs) (b ∷ bs) =
    ((λ h. ground (arith, (bytes_eq_iff xs bs).0)), λ h. ground (arith, (bytes_eq_iff xs bs).1))

pub bytes_eq_refl : (a : Bytes) → bytes_eq a a ≡ true
bytes_eq_refl a = (bytes_eq_iff a a).1 refl

instance abbrev pub bytes_eq_instance : Eq Bytes
bytes_eq_instance = record { beq = bytes_eq; beq_iff = bytes_eq_iff }

abbrev pub IsByte : ℕ → Type 0
IsByte b = b < 256

abbrev pub or_zero : Option ℕ → ℕ
or_zero none = 0
or_zero (some b) = b

-- The byte of an array at an index in range.
unfoldable pub byte_at : ℕ → Bytes → ℕ
unfolding get_elem?
byte_at i b = or_zero (get_elem? b i)
