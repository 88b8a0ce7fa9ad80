-- ===== src/Curve/Curve25519/Contract.antt =====
-- What the rest of the program takes of rust/protocol/src/curve/curve25519.rs, as curve.rs calls it.
use libsignal_client.Primitives.{Primitives, Lawful}
use libsignal_client.Curve.Curve25519
use libsignal_client.Curve.Curve25519.{Edwards, LawfulEdwards, KeyPair}
use libsignal_client.Curve.Curve25519.Agreement.{restored, calculate_agreement-swapped}
use libsignal_client.Curve.Curve25519.Signature.{verify_signature-sign}

-- The primitives with X25519 and XEdDSA as curve25519.rs computes them, other functions as given.
abbrev pub with_curve : Edwards → Primitives → Primitives
with_curve e p = record p {
  x25519 = λ private public.
      Curve25519.calculate_agreement ⦃e = e⦄ (Curve25519.from ⦃e = e⦄ private) public;
  x25519_public = λ private. Curve25519.derive_public_key ⦃e = e⦄ private;
  static_secret =
      λ csprng. let (pair, csprng') = Curve25519.new ⦃e = e⦄ csprng in (pair.private_key, csprng');
  xeddsa_sign = λ private message random.
      Curve25519.sign ⦃e = e⦄ (Curve25519.from ⦃e = e⦄ private) message random;
  xeddsa_verify =
      λ public message signature. Curve25519.verify_signature ⦃e = e⦄ public message signature;
  fill_bytes = e.fill_bytes;
}

-- The functions of curve25519.rs can stand for the primitives of sessions and groups.
pub with_curve-Lawful :
    (e : Edwards) (p : Primitives) → LawfulEdwards e → Lawful p → Lawful (with_curve e p)
unfolding Curve25519.calculate_agreement Curve25519.from Curve25519.derive_public_key Curve25519.new
with_curve-Lawful e p group laws = record {
  hmac_length = laws.hmac_length;
  cbc_round = laws.cbc_round;
  cbc_blocks = laws.cbc_blocks;
  cbc_padded = laws.cbc_padded;
  x25519_comm = λ a b.
      (calculate_agreement-swapped ⦃e = e⦄ group (Curve25519.from ⦃e = e⦄ a)
        (Curve25519.from ⦃e = e⦄ b) (restored a) (restored b)).0;
  x25519_public_length = λ k. group.public_length (e.public_of (e.secret_from k));
  static_secret_length = λ g. group.secret_length (e.new_secret g).0;
  gen_32_length = laws.gen_32_length;
  ct_eq_iff = laws.ct_eq_iff;
  xeddsa_length = λ k m r. (verify_signature-sign ⦃e = e⦄ group k m r).0;
  xeddsa_correct = λ k m r. (verify_signature-sign ⦃e = e⦄ group k m r).1;
}
