-- ===== src/State/Bundle.antt =====
-- rust/protocol/src/state/bundle.rs
use libsignal_client.Common.{ℕ, Bool, true, false, Option, none, some, if◌then◌else◌}
use libsignal_client.Common.Bytes.{Bytes}
use libsignal_client.Error.{Result, ok, err, invalid_pre_key_bundle}
use libsignal_client.Curve.PublicKey.{PublicKey}

pub record PreKeyBundle : Type 0 where
  pub registration_id : ℕ
  pub device_id : ℕ
  pub pre_key_id : Option ℕ
  pub pre_key_public : Option PublicKey
  pub signed_pre_key_id : ℕ
  pub signed_pre_key_public : PublicKey
  pub signed_pre_key_signature : Bytes
  pub identity_key : PublicKey

abbrev both_or_neither : Option PublicKey → Option ℕ → Bool
both_or_neither none none = true
both_or_neither none (some i) = false
both_or_neither (some k) none = false
both_or_neither (some k) (some i) = true

unfoldable pub new :
    ℕ → ℕ → Option ℕ → Option PublicKey → ℕ → PublicKey → Bytes → PublicKey → Result PreKeyBundle
new registration_id device_id pre_key_id pre_key_public signed_pre_key_id signed_pre_key_public
      signed_pre_key_signature identity_key =
    if both_or_neither pre_key_public pre_key_id
    then ok (record {
      registration_id = registration_id;
      device_id = device_id;
      pre_key_id = pre_key_id;
      pre_key_public = pre_key_public;
      signed_pre_key_id = signed_pre_key_id;
      signed_pre_key_public = signed_pre_key_public;
      signed_pre_key_signature = signed_pre_key_signature;
      identity_key = identity_key;
    })
    else err invalid_pre_key_bundle
