-- ===== src/Fingerprint/Agree.antt =====
-- The fingerprints that the two parties compute, of rust/protocol/src/fingerprint.rs.
use libsignal_client.Common.{
  ◌↔◌, Bool, true, false, ◌||◌, leb, ltb, if◌then◌else◌, ℕ, zero, suc, ◌-◌, ◌≤◌, ◌<◌, ◌≡◌, refl,
  ◌∷◌, ◌++◌, length, arith,
}
use libsignal_client.Common.Bytes.{Bytes}
use libsignal_client.Error.{ok, err, SignalProtocolError, >>=-eq-ok}
use libsignal_client.Curve.PublicKey.{PublicKey, serialize as key_bytes}
use libsignal_client.Fingerprint.{
  Fingerprints, LawfulFingerprints, Fingerprint, rehash, get_fingerprint, new, new_scannable,
  display_string, serialize, compare,
}
use libsignal_client.Fingerprint.Display.{display-swapped, display-length, new_displayable_total}
use libsignal_client.Fingerprint.Compare.{compare_iff}

-- The fingerprint made of two computed ones and their texts.
abbrev made : ℕ → Bytes → Bytes → Bytes → Bytes → Fingerprint
made version l r s t = record {
  display = record { local = s; remote = t };
  scannable = new_scannable version l r;
}

passed :
    (test : Bool) (e : SignalProtocolError) (a : Bytes) {b : Bytes}
    → (if test then err e else ok a) ≡ ok b
    → test ≡ false
passed true e a h = cc
passed false e a h = refl

in_range : (n : ℕ) → (leb n 1 || ltb 1000000 n) ≡ false → (1 < n) × (n ≤ 1000000)
in_range n h = ground arith

module _ ⦃f : Fingerprints⦄ (lf : LawfulFingerprints f) where
  length-rehash :
      (rounds : ℕ) (key buf : Bytes) → length buf ≡ 64 → length (rehash rounds key buf) ≡ 64
  unfolding rehash
  length-rehash zero key buf h = h
  length-rehash (suc rounds) key buf h =
      length-rehash rounds key (f.sha512 (buf ++ key)) (lf.sha512_length (buf ++ key))

  -- Within the limits on the iterations a fingerprint is computed, of 64 bytes.
  get_fingerprint_total :
      (iterations : ℕ) (id : Bytes) (key : PublicKey)
      → 1 < iterations
      → iterations ≤ 1000000
      → (fp : Bytes) × (get_fingerprint iterations id key ≡ ok fp) × (length fp ≡ 64)
  unfolding get_fingerprint
  get_fingerprint_total iterations id key many few =
      let k = key_bytes key in
      let first = f.sha512 (0 ∷ 0 ∷ k ++ id ++ k) in
      (
        rehash (iterations - 1) k first,
        ground arith,
        length-rehash (iterations - 1) k first (lf.sha512_length (0 ∷ 0 ∷ k ++ id ++ k)),
      )

  -- For a number of iterations from 2 to 1000000, both parties compute fingerprints, whatever their
  -- identifiers and keys; what is displayed is the same text of 60 digits on both sides, and each
  -- party's comparison with the scanned bytes of the other answers yes.
  pub new_agree :
      (version iterations : ℕ) (id : Bytes) (key : PublicKey) (id' : Bytes) (key' : PublicKey)
      → 1 < iterations
      → iterations ≤ 1000000
      → (a b : Fingerprint) × (new version iterations id key id' key' ≡ ok a)
        × (new version iterations id' key' id key ≡ ok b)
        × (display_string a ≡ display_string b)
        × (length (display_string a) ≡ 60)
        × (compare a.scannable (serialize b.scannable) ≡ ok true)
        × (compare b.scannable (serialize a.scannable) ≡ ok true)
  unfolding new display_string new_scannable
  new_agree version iterations id key id' key' many few =
      let (l, made_l, len_l) = get_fingerprint_total iterations id key many few in
      let (r, made_r, len_r) = get_fingerprint_total iterations id' key' many few in
      let (s, t, shown, shown', len_s, len_t) =
        new_displayable_total l r (omega arith) (omega arith) in
      let a = made version l r s t in
      let b = made version r l t s in
      (
        a,
        b,
        rw (made_l, made_r, shown) refl,
        rw (made_r, made_l, shown') refl,
        display-swapped s t,
        omega (arith, display-length a.display),
        (compare_iff lf a.scannable b.scannable).1 (refl, refl, refl),
        (compare_iff lf b.scannable a.scannable).1 (refl, refl, refl),
      )

  get_fingerprint-ok :
      (iterations : ℕ) (id : Bytes) (key : PublicKey) {fp : Bytes}
      → get_fingerprint iterations id key ≡ ok fp
      → (1 < iterations) × (iterations ≤ 1000000)
  unfolding get_fingerprint
  get_fingerprint-ok iterations id key h = in_range iterations (passed _ _ _ h)

  -- Fingerprints are made exactly when the number of iterations is from 2 to 1000000; the keys and
  -- the identifiers do not matter.
  pub new_iff :
      (version iterations : ℕ) (id : Bytes) (key : PublicKey) (id' : Bytes) (key' : PublicKey)
      → ((a : Fingerprint) × (new version iterations id key id' key' ≡ ok a))
        ↔ ((1 < iterations) × (iterations ≤ 1000000))
  unfolding new
  new_iff version iterations id key id' key' = (
    (λ (a, h).
        let (l, made_l, rest) = >>=-eq-ok (get_fingerprint iterations id key) _ h in
        get_fingerprint-ok iterations id key made_l),
    λ (many, few).
        let agreed = new_agree version iterations id key id' key' many few in (agreed.0, agreed.2),
  )
