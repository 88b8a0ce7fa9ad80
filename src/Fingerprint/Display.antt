-- ===== src/Fingerprint/Display.antt =====
-- The displayed fingerprint of rust/protocol/src/fingerprint.rs: its length and its symmetry.
use libsignal_client.Common.{
  ◌+◌, ◌≤◌, ◌≡◌, refl, true, false, [], ◌∷◌, length, length-append, le→ltb, arith,
}
use libsignal_client.Common.Bytes.{Bytes}
use libsignal_client.Error.{ok}
use libsignal_client.Fingerprint.{
  DisplayableFingerprint, string_lt, display, digits5, encoded_digits, get_encoded_string,
  new_displayable,
}

-- The order of strings is asymmetric.
pub string_lt_asym : (s t : Bytes) → string_lt s t ≡ true → string_lt t s ≡ false
unfolding string_lt
string_lt_asym s [] h = cc
string_lt_asym [] (b ∷ t) h = refl
string_lt_asym (a ∷ s) (b ∷ t) h = ground (arith, string_lt_asym s t)

-- Strings of which neither is before the other are the same.
pub string_lt_total : (s t : Bytes) → string_lt s t ≡ false → string_lt t s ≡ false → s ≡ t
unfolding string_lt
string_lt_total [] [] h h' = refl
string_lt_total [] (b ∷ t) h h' = cc
string_lt_total (a ∷ s) [] h h' = cc
string_lt_total (a ∷ s) (b ∷ t) h h' = ground (arith, string_lt_total s t)

swapped : DisplayableFingerprint → DisplayableFingerprint
swapped d = record { local = d.remote; remote = d.local }

-- Both parties display the same text: the order of the two halves does not depend on which of
-- them is the local one.
pub display-swapped :
    (l r : Bytes)
    → display (record { local = l; remote = r }) ≡ display (record { local = r; remote = l })
unfolding display
display-swapped l r = ground (arith, string_lt_asym l r, string_lt_total l r)

pub display-length :
    (d : DisplayableFingerprint) → length (display d) ≡ length d.local + length d.remote
unfolding display
display-length d = ground (arith, length-append d.local d.remote, length-append d.remote d.local)

-- Thirty bytes are enough for an encoding, of thirty digits.
pub get_encoded_string_total :
    (fprint : Bytes)
    → 30 ≤ length fprint
    → (s : Bytes) × (get_encoded_string fprint ≡ ok s) × (length s ≡ 30)
unfolding get_encoded_string encoded_digits digits5
get_encoded_string_total fprint h =
    (encoded_digits fprint, rw (le→ltb (length fprint) 30 h) refl, refl)

pub new_displayable_total :
    (l r : Bytes)
    → 30 ≤ length l
    → 30 ≤ length r
    → (a b : Bytes) × (new_displayable l r ≡ ok (record { local = a; remote = b }))
      × (new_displayable r l ≡ ok (record { local = b; remote = a }))
      × (length a ≡ 30)
      × (length b ≡ 30)
unfolding new_displayable
new_displayable_total l r hl hr =
    let (a, made_a, len_a) = get_encoded_string_total l hl in
    let (b, made_b, len_b) = get_encoded_string_total r hr in
    (a, b, rw (made_a, made_b) refl, rw (made_b, made_a) refl, len_a, len_b)
