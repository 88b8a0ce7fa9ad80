-- ===== src/Examples/Formats.antt =====
-- Encodings of values before other bytes, which are read back.
use libsignal_client.Common.{
  ℕ, zero, suc, ◌≡◌, refl, Bool, true, false, Option, none, some, List, [], ◌∷◌, length,
}
use libsignal_client.Common.Bytes.{Bytes}

-- A value before other bytes, and the value and those bytes read back.
pub record Format (A : Type 0) : Type 0 where
  pub put : A → Bytes → Bytes
  pub get : Bytes → A × Bytes
  pub get-put : (a : A) (rest : Bytes) → get (put a rest) ≡ (a, rest)

abbrev pub get_nat : Bytes → ℕ × Bytes
get_nat [] = (0, [])
get_nat (n ∷ rest) = (n, rest)

abbrev pub nat : Format ℕ
nat = record { put = λ n rest. n ∷ rest; get = get_nat; get-put = λ n rest. refl }

module _ {A B : Type 0} (f : Format A) (g : Format B) where
  abbrev pub get_both : Bytes → (A × B) × Bytes
  get_both b = let (x, rest) = f.get b in let (y, rest') = g.get rest in ((x, y), rest')

  abbrev pub put_both : A × B → Bytes → Bytes
  put_both (x, y) rest = f.put x (g.put y rest)

  pub get_both-put_both : (v : A × B) (rest : Bytes) → get_both (put_both v rest) ≡ (v, rest)
  get_both-put_both (x, y) rest = rw (f.get-put x (g.put y rest), g.get-put y rest)

  abbrev pub both : Format (A × B)
  both = record { put = put_both; get = get_both; get-put = get_both-put_both }

module _ {A : Type 0} (f : Format A) where
  abbrev pub put_all : List A → Bytes → Bytes
  put_all [] rest = rest
  put_all (x ∷ xs) rest = f.put x (put_all xs rest)

  abbrev pub get_all : ℕ → Bytes → List A × Bytes
  get_all zero b = ([], b)
  get_all (suc n) b = let (x, rest) = f.get b in let (xs, rest') = get_all n rest in (x ∷ xs, rest')

  pub get_all-put_all :
      (xs : List A) (rest : Bytes) → get_all (length xs) (put_all xs rest) ≡ (xs, rest)
  get_all-put_all [] rest = refl
  get_all-put_all (x ∷ xs) rest = rw (f.get-put x (put_all xs rest), get_all-put_all xs rest)

  abbrev pub get_list : Bytes → List A × Bytes
  get_list [] = ([], [])
  get_list (n ∷ rest) = get_all n rest

  abbrev pub list : Format (List A)
  list = record {
    put = λ xs rest. length xs ∷ put_all xs rest;
    get = get_list;
    get-put = get_all-put_all;
  }

  abbrev pub put_option : Option A → Bytes → Bytes
  put_option none rest = 0 ∷ rest
  put_option (some a) rest = 1 ∷ f.put a rest

  abbrev pub get_option : Bytes → Option A × Bytes
  get_option [] = (none, [])
  get_option (zero ∷ rest) = (none, rest)
  get_option (suc t ∷ rest) = let (a, rest') = f.get rest in (some a, rest')

  pub get_option-put_option :
      (o : Option A) (rest : Bytes) → get_option (put_option o rest) ≡ (o, rest)
  get_option-put_option none rest = refl
  get_option-put_option (some a) rest = rw (f.get-put a rest)

  abbrev pub option : Format (Option A)
  option = record { put = put_option; get = get_option; get-put = get_option-put_option }

-- The format of a type with that of its fields.
module _ {A B : Type 0} (f : Format B) (fields : A → B) (build : B → A) where
  abbrev pub via : ((a : A) → build (fields a) ≡ a) → Format A
  via inverse = record {
    put = λ a rest. f.put (fields a) rest;
    get = λ b. let (v, rest) = f.get b in (build v, rest);
    get-put = λ a rest. rw (f.get-put (fields a) rest, inverse a);
  }

abbrev pub bytes : Format Bytes
bytes = list nat

abbrev pub bit : Bool → ℕ
bit false = 0
bit true = 1

abbrev pub bit_value : ℕ → Bool
bit_value zero = false
bit_value (suc n) = true

pub bit_value-bit : (b : Bool) → bit_value (bit b) ≡ b
bit_value-bit false = refl
bit_value-bit true = refl

abbrev pub bool : Format Bool
bool = via nat bit bit_value bit_value-bit
