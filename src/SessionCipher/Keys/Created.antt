-- ===== src/SessionCipher/Keys/Created.antt =====
-- What `get_or_create_chain_key` returns and stores.
use libsignal_client.Common.{
  ℕ, ◌-◌, ◌≡◌, refl, inl, inr, Option, none, some, arith, length, ltb, if◌then◌else◌, Option-cases,
}
use libsignal_client.Common.Bytes.{ascii}
use libsignal_client.Error.{ok, >>=-eq-ok, Result-cases}
use libsignal_client.Primitives.{Primitives, Lawful}
use libsignal_client.Curve.PublicKey.{PublicKey}
use libsignal_client.Curve.PrivateKey.{PrivateKey, calculate_agreement}
use libsignal_client.Curve.KeyPair.{generate}
use libsignal_client.Kdf
use libsignal_client.Kdf.{derive_salted_secrets}
use libsignal_client.Kdf.Rfc5869.{length-derive_salted_secrets}
use libsignal_client.Ratchet.ChainKey
use libsignal_client.Ratchet.ChainKey.{ChainKey}
use libsignal_client.Ratchet.MessageKeys.{length-slice}
use libsignal_client.Ratchet.RootKey.{RootKey, create_chain}
use libsignal_client.State.Session.{
  SessionState, get_receiver_chain, get_receiver_chain_key, root_key, set_root_key,
  sender_ratchet_private_key, add_receiver_chain, get_sender_chain_key, set_previous_counter,
  set_sender_chain, session_version, read_chain_key, store_chain_key,
}
use libsignal_client.Proto.Storage
use libsignal_client.Proto.Storage.{Chain}
use libsignal_client.SessionCipher.Keys.{Working, create_chain_key}

pub read_chain_key-eq-ok :
    (version : ℕ) (o : Option Storage.ChainKey) (k : ChainKey)
    → read_chain_key version o ≡ ok k
    → (o ≡ some (store_chain_key k)) × (Kdf.new version ≡ ok k.kdf) × (length k.key ≡ 32)
unfolding read_chain_key store_chain_key ChainKey.new
read_chain_key-eq-ok version none k h = cc
read_chain_key-eq-ok version (some c) k h = ground arith

module _ (sender : PublicKey) (s : SessionState) where
  -- The chain and the key that a successful look-up read.
  pub get_receiver_chain_key-eq-some :
      (k : ChainKey)
      → get_receiver_chain_key sender s ≡ ok (some k)
      → (c : Chain) × (i : ℕ) × (get_receiver_chain sender s ≡ ok (some (c, i)))
        × (read_chain_key (session_version s) c.chain_key ≡ ok k)
  unfolding get_receiver_chain_key
  get_receiver_chain_key-eq-some k h =
      let (found, e, rest) = >>=-eq-ok (get_receiver_chain sender s) _ h in
      elim (Option-cases found) [
        | inl n ↦ absurd (ground arith)
        | inr ((c, i), q) ↦ (c, i, ground arith, ground arith)
      ]

  pub get_receiver_chain_key-eq-none :
      get_receiver_chain_key sender s ≡ ok none → get_receiver_chain sender s ≡ ok none
  unfolding get_receiver_chain_key
  get_receiver_chain_key-eq-none h = ground arith

pub length-create_chain :
    ⦃p : Primitives⦄
    → (laws : Lawful p) (r : RootKey) (their_key : PublicKey) (our_key : PrivateKey)
    → length (create_chain r their_key our_key).1.key ≡ 32
unfolding create_chain
length-create_chain laws r their_key our_key =
    let secret = calculate_agreement their_key our_key in
    length-slice 32 64 (derive_salted_secrets r.kdf secret r.key (ascii "WhisperRatchet") 64)
      (omega arith)
      (omega
        (arith, length-derive_salted_secrets laws r.kdf secret r.key (ascii "WhisperRatchet") 64))

sending_kept :
    (sender : PublicKey) (k : ChainKey) (r : RootKey) (s : SessionState)
    → get_sender_chain_key (add_receiver_chain sender k (set_root_key r s)) ≡ get_sender_chain_key s
unfolding get_sender_chain_key add_receiver_chain set_root_key
sending_kept sender k r s = refl

module _ ⦃p : Primitives⦄ (sender : PublicKey) (w : Working) where
  pub record Inputs : Type 0 where
    pub root : RootKey
    pub ours : PrivateKey
    pub sending : ChainKey
    pub root_is : root_key w.state ≡ ok root
    pub ours_is : sender_ratchet_private_key w.state ≡ ok ours
    pub sending_is : get_sender_chain_key w.state ≡ ok sending

  -- The state after a step of the double ratchet: the new root key, the chain of the sender's new
  -- ratchet key, and a sending chain under a fresh key pair.
  abbrev pub ratcheted : Inputs → Working
  ratcheted i =
      let receiver = create_chain i.root sender i.ours in
      let (pair, csprng') = generate w.csprng in
      let sending = create_chain receiver.0 sender pair.private_key in
      record {
        state = set_sender_chain pair sending.1 (
            set_previous_counter (if ltb 0 i.sending.index then i.sending.index - 1 else 0)
              (add_receiver_chain sender receiver.1 (set_root_key sending.0 w.state)));
        csprng = csprng';
      }

  pub create_chain_key_lem :
      (i : Inputs)
      → create_chain_key sender w ≡ (ok (create_chain i.root sender i.ours).1, ratcheted i)
  unfolding create_chain_key
  create_chain_key_lem i = rw (i.root_is, i.ours_is, sending_kept sender _ _ w.state, i.sending_is)

  -- A step that succeeds has read the keys of the session, and has this result.
  pub create_chain_key-eq-ok :
      {k : ChainKey} {w' : Working}
      → create_chain_key sender w ≡ (ok k, w')
      → (i : Inputs) × (k ≡ (create_chain i.root sender i.ours).1) × (w' ≡ ratcheted i)
  unfolding create_chain_key
  create_chain_key-eq-ok {k} {w'} h = elim (Result-cases (root_key w.state)) [
    | inr (e, bad) ↦ absurd (cc (rw (bad, create_chain_key) at h))
    | inl (root, root_is) ↦ elim (Result-cases (sender_ratchet_private_key w.state)) [
      | inr (e, bad) ↦ absurd (cc (rw (root_is, bad) at h))
      | inl (ours, ours_is) ↦ elim (Result-cases (get_sender_chain_key w.state)) [
        | inr (e, bad) ↦
            absurd (cc (rw (root_is, ours_is, sending_kept sender _ _ w.state, bad) at h))
        | inl (sending, sending_is) ↦
            let i : Inputs = record {
              root = root;
              ours = ours;
              sending = sending;
              root_is = root_is;
              ours_is = ours_is;
              sending_is = sending_is;
            } in
            (i, cc (create_chain_key_lem i, h), cc (create_chain_key_lem i, h))
      ]
    ]
  ]
