-- ===== src/Fingerprint.antt =====
-- rust/protocol/src/fingerprint.rs and proto/fingerprint.proto. A `String` of digits is the list of
-- its bytes; SHA-512 (the sha2 crate) and the protobuf codec are parameters.
use libsignal_client.Common.{
  ◌↔◌, ℕ, zero, suc, ◌+◌, ◌-◌, ◌*◌, ◌/◌, ◌%◌, ◌≡◌, String, Bool, true, false, not, ◌&&◌, ◌||◌,
  Option, none, some, List, [], ◌∷◌, ◌++◌, length, take, slice, ltb, leb, ◌==◌, if◌then◌else◌,
}
use Prim.Native.String.{◌++◌ as ◌<>◌, slice as text_slice}
use libsignal_client.Common.Bytes.{Bytes}
use libsignal_client.Error.{
  Result, ok, err, ◌>>=◌, ◌>>◌, ok_or, require, invalid_argument, protobuf_decoding_error,
  invalid_protobuf_encoding, fingerprint_version_mismatch,
}
use libsignal_client.Curve.PublicKey.{PublicKey, serialize as key_bytes}
mod Display
pub mod Compare
pub mod Agree

pub record LogicalFingerprint : Type 0 where
  pub content : Bytes

pub record CombinedFingerprints : Type 0 where
  pub version : ℕ
  pub local_fingerprint : Option LogicalFingerprint
  pub remote_fingerprint : Option LogicalFingerprint

-- What other crates give: `Sha512`, `ct_eq` of the subtle crate, and the encoding of the protobuf message.
pub record Fingerprints : Type 0 where
  pub sha512 : Bytes → Bytes
  pub ct_eq : Bytes → Bytes → Bool
  pub encode : CombinedFingerprints → Bytes
  pub decode : Bytes → Option CombinedFingerprints

-- Their documented behaviour.
pub record LawfulFingerprints (f : Fingerprints) : Type 0 where
  pub sha512_length : (m : Bytes) → length (f.sha512 m) ≡ 64
  pub ct_eq_iff : (a b : Bytes) → (f.ct_eq a b ≡ true) ↔ (a ≡ b)
  pub decode_encode : (m : CombinedFingerprints) → f.decode (f.encode m) ≡ some m

pub record DisplayableFingerprint : Type 0 where
  pub local : Bytes
  pub remote : Bytes

-- The order of strings, by their bytes.
unfoldable pub string_lt : Bytes → Bytes → Bool
string_lt s [] = false
string_lt [] (b ∷ t) = true
string_lt (a ∷ s) (b ∷ t) = let rest = string_lt s t in ltb a b || ((a == b) && rest)

unfoldable pub display : DisplayableFingerprint → Bytes
unfolding string_lt
display d = if string_lt d.local d.remote then d.local ++ d.remote else d.remote ++ d.local

unfoldable pub fold_bytes : ℕ → Bytes → ℕ
fold_bytes acc [] = acc
fold_bytes acc (x ∷ xs) = fold_bytes ((acc * 256 + x) % 18446744073709551616) xs

unfoldable pub read5_mod_100k : Bytes → ℕ
unfolding fold_bytes
read5_mod_100k fprint = fold_bytes 0 fprint % 100000

-- `{:05}` of a number below 100000: its five digits.
unfoldable pub digits5 : ℕ → Bytes
digits5 x =
    (48 + x / 10000 % 10)
    ∷ (48 + x / 1000 % 10)
    ∷ (48 + x / 100 % 10)
    ∷ (48 + x / 10 % 10)
    ∷ (48 + x % 10)
    ∷ []

-- The text of the first thirty bytes, five digits for each five bytes.
unfoldable pub encoded_digits : Bytes → Bytes
unfolding read5_mod_100k digits5
encoded_digits fprint =
    digits5 (read5_mod_100k (slice 0 5 fprint))
    ++ digits5 (read5_mod_100k (slice 5 10 fprint))
    ++ digits5 (read5_mod_100k (slice 10 15 fprint))
    ++ digits5 (read5_mod_100k (slice 15 20 fprint))
    ++ digits5 (read5_mod_100k (slice 20 25 fprint))
    ++ digits5 (read5_mod_100k (slice 25 30 fprint))

unfoldable pub get_encoded_string : Bytes → Result Bytes
unfolding encoded_digits
get_encoded_string fprint =
    if ltb (length fprint) 30
    then err (invalid_argument "DisplayableFingerprint created with short encoding")
    else ok (encoded_digits fprint)

unfoldable pub new_displayable : Bytes → Bytes → Result DisplayableFingerprint
new_displayable local remote = do
  local_string ← get_encoded_string local
  remote_string ← get_encoded_string remote
  ok (record { local = local_string; remote = remote_string })

pub record ScannableFingerprint : Type 0 where
  pub version : ℕ
  pub local_fingerprint : Bytes
  pub remote_fingerprint : Bytes

-- Both fingerprints have 64 bytes where this is called, so the slices `[..32]` are in range.
unfoldable pub new_scannable : ℕ → Bytes → Bytes → ScannableFingerprint
new_scannable version local_fprint remote_fprint = record {
  version = version;
  local_fingerprint = take 32 local_fprint;
  remote_fingerprint = take 32 remote_fprint;
}

unfoldable pub deserialize : ⦃f : Fingerprints⦄ → Bytes → Result ScannableFingerprint
deserialize ⦃f⦄ protobuf = do
  fingerprint ← ok_or (f.decode protobuf) protobuf_decoding_error
  local ← ok_or fingerprint.local_fingerprint invalid_protobuf_encoding
  remote ← ok_or fingerprint.remote_fingerprint invalid_protobuf_encoding
  ok (record {
    version = fingerprint.version;
    local_fingerprint = local.content;
    remote_fingerprint = remote.content;
  })

unfoldable pub serialize : ⦃f : Fingerprints⦄ → ScannableFingerprint → Bytes
serialize ⦃f⦄ s = f.encode (record {
  version = s.version;
  local_fingerprint = some (record { content = s.local_fingerprint });
  remote_fingerprint = some (record { content = s.remote_fingerprint });
})

-- `compare`, from the decoded message on.
unfoldable pub compare_combined :
    ⦃f : Fingerprints⦄ → ScannableFingerprint → CombinedFingerprints → Result Bool
compare_combined ⦃f⦄ s combined = do
  require (combined.version == s.version) fingerprint_version_mismatch
  local ← ok_or combined.local_fingerprint fingerprint_version_mismatch
  remote ← ok_or combined.remote_fingerprint fingerprint_version_mismatch
  ok (f.ct_eq local.content s.remote_fingerprint && f.ct_eq remote.content s.local_fingerprint)

unfoldable pub compare : ⦃f : Fingerprints⦄ → ScannableFingerprint → Bytes → Result Bool
unfolding compare_combined
compare ⦃f⦄ s combined = do
  message ← ok_or (f.decode combined) protobuf_decoding_error
  compare_combined s message

pub record Fingerprint : Type 0 where
  pub display : DisplayableFingerprint
  pub scannable : ScannableFingerprint

-- The digit of a number below 10.
unfoldable pub digit_text : ℕ → String
digit_text n = text_slice "0123456789" n (suc n)

-- `{}` of a number of at most as many digits as the first argument.
unfoldable pub decimal : ℕ → ℕ → String
unfolding digit_text
decimal zero n = ""
decimal (suc digits) n =
    let front = decimal digits (n / 10) in
    if ltb n 10 then digit_text n else front <> digit_text (n % 10)

-- The loop `for _i in 1..iterations`, on the number of its rounds.
unfoldable pub rehash : ⦃f : Fingerprints⦄ → ℕ → Bytes → Bytes → Bytes
rehash zero key buf = buf
rehash ⦃f⦄ (suc rounds) key buf = rehash rounds key (f.sha512 (buf ++ key))

-- A `u32` has at most ten digits.
unfoldable pub get_fingerprint : ⦃f : Fingerprints⦄ → ℕ → Bytes → PublicKey → Result Bytes
unfolding rehash decimal
get_fingerprint ⦃f⦄ iterations local_id local_key =
    if leb iterations 1 || ltb 1000000 iterations
    then err (invalid_argument ("Invalid fingerprint iterations " <> decimal 10 iterations))
    else (let key = key_bytes local_key in
        ok (rehash (iterations - 1) key (f.sha512 (0 ∷ 0 ∷ key ++ local_id ++ key))))

unfoldable pub new :
    ⦃f : Fingerprints⦄ → ℕ → ℕ → Bytes → PublicKey → Bytes → PublicKey → Result Fingerprint
unfolding new_displayable new_scannable
new version iterations local_id local_key remote_id remote_key = do
  local_fingerprint ← get_fingerprint iterations local_id local_key
  remote_fingerprint ← get_fingerprint iterations remote_id remote_key
  display ← new_displayable local_fingerprint remote_fingerprint
  ok (record {
    display = display;
    scannable = new_scannable version local_fingerprint remote_fingerprint;
  })

-- `display_string`
unfoldable pub display_string : Fingerprint → Bytes
display_string fingerprint = display fingerprint.display
