-- ===== src/Examples/ToyCodec.antt =====
-- An encoding of the messages that is decoded to what it encodes.
use libsignal_client.Common.{
  ℕ, zero, suc, ◌≡◌, refl, Option, none, some, [], ◌∷◌, ◌++◌, length, take, drop, take-append,
  drop-append,
}
use libsignal_client.Common.Bytes.{Bytes}
use libsignal_client.Protocol.Wire.{Codec, RoundTrips}

abbrev pub put_nat : Option ℕ → Bytes → Bytes
put_nat none rest = 0 ∷ rest
put_nat (some n) rest = 1 ∷ n ∷ rest

abbrev pub put_bytes : Option Bytes → Bytes → Bytes
put_bytes none rest = 0 ∷ rest
put_bytes (some b) rest = 1 ∷ length b ∷ b ++ rest

abbrev pub nat_of : Bytes → Option ℕ
nat_of [] = none
nat_of (zero ∷ rest) = none
nat_of (suc t ∷ []) = none
nat_of (suc t ∷ n ∷ rest) = some n

abbrev pub after_nat : Bytes → Bytes
after_nat [] = []
after_nat (zero ∷ rest) = rest
after_nat (suc t ∷ []) = []
after_nat (suc t ∷ n ∷ rest) = rest

unfoldable pub bytes_of : Bytes → Option Bytes
unfolding take
bytes_of [] = none
bytes_of (zero ∷ rest) = none
bytes_of (suc t ∷ []) = none
bytes_of (suc t ∷ n ∷ rest) = some (take n rest)

unfoldable pub after_bytes : Bytes → Bytes
unfolding drop
after_bytes [] = []
after_bytes (zero ∷ rest) = rest
after_bytes (suc t ∷ []) = []
after_bytes (suc t ∷ n ∷ rest) = drop n rest

nat_of-put_nat : (o : Option ℕ) (rest : Bytes) → nat_of (put_nat o rest) ≡ o
nat_of-put_nat none rest = refl
nat_of-put_nat (some n) rest = refl

after_nat-put_nat : (o : Option ℕ) (rest : Bytes) → after_nat (put_nat o rest) ≡ rest
after_nat-put_nat none rest = refl
after_nat-put_nat (some n) rest = refl

pub bytes_of-put_bytes : (o : Option Bytes) (rest : Bytes) → bytes_of (put_bytes o rest) ≡ o
unfolding bytes_of
bytes_of-put_bytes none rest = refl
bytes_of-put_bytes (some b) rest = rw (take-append b rest (length b) refl) refl

pub after_bytes-put_bytes :
    (o : Option Bytes) (rest : Bytes) → after_bytes (put_bytes o rest) ≡ rest
unfolding after_bytes
after_bytes-put_bytes none rest = refl
after_bytes-put_bytes (some b) rest = rw (drop-append b rest (length b) refl) refl

instance abbrev pub toy_codec : Codec
toy_codec = record {
  encode_signal = λ m.
      put_bytes m.ratchet_key
        (put_nat m.counter (put_nat m.previous_counter (put_bytes m.ciphertext [])));
  decode_signal = λ b.
      let c = after_bytes b in
      let d = after_nat c in
      let e = after_nat d in
      some (record {
        ratchet_key = bytes_of b;
        counter = nat_of c;
        previous_counter = nat_of d;
        ciphertext = bytes_of e;
      });
  encode_pre_key_signal = λ m. put_nat m.registration_id (
      put_nat m.pre_key_id (
        put_nat m.signed_pre_key_id
          (put_bytes m.base_key (put_bytes m.identity_key (put_bytes m.message [])))));
  decode_pre_key_signal = λ b.
      let c = after_nat b in
      let d = after_nat c in
      let e = after_nat d in
      let f = after_bytes e in
      let g = after_bytes f in
      some (record {
        registration_id = nat_of b;
        pre_key_id = nat_of c;
        signed_pre_key_id = nat_of d;
        base_key = bytes_of e;
        identity_key = bytes_of f;
        message = bytes_of g;
      });
  encode_sender_key = λ m. put_nat m.id (put_nat m.iteration (put_bytes m.ciphertext []));
  decode_sender_key = λ b.
      let c = after_nat b in
      let d = after_nat c in
      some (record { id = nat_of b; iteration = nat_of c; ciphertext = bytes_of d });
  encode_distribution =
      λ m. put_nat m.id (put_nat m.iteration (put_bytes m.chain_key (put_bytes m.signing_key [])));
  decode_distribution = λ b.
      let c = after_nat b in
      let d = after_nat c in
      let e = after_bytes d in
      some (record {
        id = nat_of b;
        iteration = nat_of c;
        chain_key = bytes_of d;
        signing_key = bytes_of e;
      });
}

pub toy_codec-RoundTrips : RoundTrips toy_codec
toy_codec-RoundTrips = record {
  signal = λ m. rw (
    bytes_of-put_bytes m.ratchet_key,
    after_bytes-put_bytes m.ratchet_key,
    nat_of-put_nat m.counter,
    after_nat-put_nat m.counter,
    nat_of-put_nat m.previous_counter,
    after_nat-put_nat m.previous_counter,
    bytes_of-put_bytes m.ciphertext,
  );
  pre_key_signal = λ m. rw (
    nat_of-put_nat m.registration_id,
    after_nat-put_nat m.registration_id,
    nat_of-put_nat m.pre_key_id,
    after_nat-put_nat m.pre_key_id,
    nat_of-put_nat m.signed_pre_key_id,
    after_nat-put_nat m.signed_pre_key_id,
    bytes_of-put_bytes m.base_key,
    after_bytes-put_bytes m.base_key,
    bytes_of-put_bytes m.identity_key,
    after_bytes-put_bytes m.identity_key,
    bytes_of-put_bytes m.message,
  );
  sender_key = λ m. rw (
    nat_of-put_nat m.id,
    after_nat-put_nat m.id,
    nat_of-put_nat m.iteration,
    after_nat-put_nat m.iteration,
    bytes_of-put_bytes m.ciphertext,
  );
  distribution = λ m. rw (
    nat_of-put_nat m.id,
    after_nat-put_nat m.id,
    nat_of-put_nat m.iteration,
    after_nat-put_nat m.iteration,
    bytes_of-put_bytes m.chain_key,
    after_bytes-put_bytes m.chain_key,
    bytes_of-put_bytes m.signing_key,
  );
}
