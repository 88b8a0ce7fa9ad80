-- ===== src/Fingerprint/Compare.antt =====
-- The comparison of scanned fingerprints of rust/protocol/src/fingerprint.rs.
use libsignal_client.Common.{◌≡◌, refl, ◌↔◌, true, some, arith}
use libsignal_client.Error.{ok}
use libsignal_client.Fingerprint.{
  Fingerprints, LawfulFingerprints, ScannableFingerprint, serialize, deserialize, compare,
  compare_combined, CombinedFingerprints,
}

-- The protobuf message of a fingerprint.
abbrev combined : ScannableFingerprint → CombinedFingerprints
combined s = record {
  version = s.version;
  local_fingerprint = some (record { content = s.local_fingerprint });
  remote_fingerprint = some (record { content = s.remote_fingerprint });
}

module _ ⦃f : Fingerprints⦄ (lf : LawfulFingerprints f) where
  -- A scannable fingerprint is read back from its bytes.
  pub deserialize-serialize : (s : ScannableFingerprint) → deserialize (serialize s) ≡ ok s
  unfolding deserialize serialize
  deserialize-serialize s = rw (lf.decode_encode (combined s)) refl

  -- The comparison with the bytes of another fingerprint answers yes exactly when the versions are
  -- the same and each one's local part is the other one's remote part.
  pub compare_iff :
      (s t : ScannableFingerprint)
      → (compare s (serialize t) ≡ ok true) ↔ (
          (t.version ≡ s.version)
          × (t.local_fingerprint ≡ s.remote_fingerprint)
          × (t.remote_fingerprint ≡ s.local_fingerprint))
  unfolding compare compare_combined serialize
  compare_iff s t = rw (lf.decode_encode (combined t)) (
      ground (
        arith,
        lf.ct_eq_iff t.local_fingerprint s.remote_fingerprint,
        lf.ct_eq_iff t.remote_fingerprint s.local_fingerprint,
      ))
