-- ===== src/Examples/ToyFingerprints.antt =====
-- A hash and an encoding of fingerprints that satisfy the laws, and the properties of fingerprints
-- at concrete inputs.
use libsignal_client.Common.{
  ◌≡◌, ◌<◌, ◌≤◌, ◌↔◌, refl, true, Option, none, some, [], ◌∷◌, length, ◌%◌, replicate, arith,
}
use libsignal_client.Common.Bytes.{Bytes, bytes_eq, bytes_eq_iff}
use libsignal_client.Error.{ok}
use libsignal_client.Curve.PublicKey.{PublicKey}
use libsignal_client.Examples.ToyCodec.{
  put_bytes, bytes_of, after_bytes, bytes_of-put_bytes, after_bytes-put_bytes,
}
use libsignal_client.Fingerprint.{
  LogicalFingerprint, CombinedFingerprints, Fingerprints, LawfulFingerprints, Fingerprint,
  ScannableFingerprint, new, display_string, compare, serialize,
}
use libsignal_client.Fingerprint.Compare.{compare_iff}
use libsignal_client.Fingerprint.Agree.{new_agree, new_iff}

abbrev content_of : Option LogicalFingerprint → Option Bytes
content_of none = none
content_of (some l) = some l.content

abbrev logical_of : Option Bytes → Option LogicalFingerprint
logical_of none = none
logical_of (some b) = some (record { content = b })

logical_of-content_of : (o : Option LogicalFingerprint) → logical_of (content_of o) ≡ o
logical_of-content_of none = refl
logical_of-content_of (some l) = refl

unfoldable toy_decode : Bytes → Option CombinedFingerprints
unfolding bytes_of after_bytes
toy_decode [] = none
toy_decode (v ∷ rest) = some (record {
  version = v;
  local_fingerprint = logical_of (bytes_of rest);
  remote_fingerprint = logical_of (bytes_of (after_bytes rest));
})

instance abbrev toy_fingerprints : Fingerprints
toy_fingerprints = record {
  sha512 = λ m. replicate 64 (length m % 256);
  ct_eq = bytes_eq;
  encode = λ m.
      m.version
      ∷ put_bytes (content_of m.local_fingerprint) (put_bytes (content_of m.remote_fingerprint) []);
  decode = toy_decode;
}

toy_fingerprints-Lawful : LawfulFingerprints toy_fingerprints
unfolding replicate toy_decode
toy_fingerprints-Lawful = record {
  sha512_length = λ m. refl;
  ct_eq_iff = bytes_eq_iff;
  decode_encode = λ m.
      rw
        (
          bytes_of-put_bytes (content_of m.local_fingerprint)
              (put_bytes (content_of m.remote_fingerprint) []),
          after_bytes-put_bytes (content_of m.local_fingerprint)
              (put_bytes (content_of m.remote_fingerprint) []),
          bytes_of-put_bytes (content_of m.remote_fingerprint) [],
          logical_of-content_of m.local_fingerprint,
          logical_of-content_of m.remote_fingerprint,
        )
        refl;
}

abbrev alice : PublicKey
alice = record { key = replicate 32 7 }

abbrev bob : PublicKey
bob = record { key = replicate 32 9 }

abbrev scanned : ScannableFingerprint
scanned = record { version = 1; local_fingerprint = 4 ∷ 2 ∷ []; remote_fingerprint = 5 ∷ [] }

new_agree_example :
    (a b : Fingerprint) × (new 1 2 (1 ∷ []) alice (2 ∷ 3 ∷ []) bob ≡ ok a)
    × (new 1 2 (2 ∷ 3 ∷ []) bob (1 ∷ []) alice ≡ ok b)
    × (display_string a ≡ display_string b)
    × (length (display_string a) ≡ 60)
    × (compare a.scannable (serialize b.scannable) ≡ ok true)
    × (compare b.scannable (serialize a.scannable) ≡ ok true)
new_agree_example =
    new_agree toy_fingerprints-Lawful 1 2 (1 ∷ []) alice (2 ∷ 3 ∷ []) bob (omega arith)
      (omega arith)

new_iff_example :
    ((a : Fingerprint) × (new 1 1 (1 ∷ []) alice (2 ∷ 3 ∷ []) bob ≡ ok a))
    ↔ ((1 < 1) × (1 ≤ 1000000))
new_iff_example = new_iff toy_fingerprints-Lawful 1 1 (1 ∷ []) alice (2 ∷ 3 ∷ []) bob

compare_iff_example : (compare scanned (serialize scanned) ≡ ok true) ↔ (
    (scanned.version ≡ scanned.version)
    × (scanned.local_fingerprint ≡ scanned.remote_fingerprint)
    × (scanned.remote_fingerprint ≡ scanned.local_fingerprint))
compare_iff_example = compare_iff toy_fingerprints-Lawful scanned scanned
