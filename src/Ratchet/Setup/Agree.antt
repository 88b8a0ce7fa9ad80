-- ===== src/Ratchet/Setup/Agree.antt =====
-- The two sides of the key agreement of rust/protocol/src/ratchet.rs.
use libsignal_client.Common.{ℕ, ◌≡◌, true, refl, Option, none, some, [], arith, length, slice}
use libsignal_client.Common.Bytes.{Bytes, ascii, bytes_eq_refl}
use libsignal_client.Error.{ok}
use libsignal_client.Primitives.{Primitives, Lawful}
use libsignal_client.Curve.PublicKey
use libsignal_client.Curve.PublicKey.{PublicKey, IsKey, deserialize-serialize}
use libsignal_client.Curve.PrivateKey
use libsignal_client.Curve.PrivateKey.{PrivateKey, public_key, calculate_agreement}
use libsignal_client.Curve.KeyPair
use libsignal_client.Curve.KeyPair.{KeyPair}
use libsignal_client.IdentityKey.{IdentityKeyPair}
use libsignal_client.Kdf
use libsignal_client.Kdf.{Hkdf, derive_secrets, derive_salted_secrets}
use libsignal_client.Kdf.Rfc5869.{length-derive_secrets, length-derive_salted_secrets}
use libsignal_client.Ratchet.MessageKeys.{length-slice}
use libsignal_client.Ratchet.ChainKey
use libsignal_client.Ratchet.ChainKey.{ChainKey}
use libsignal_client.Ratchet.RootKey
use libsignal_client.Ratchet.RootKey.{RootKey, create_chain, create_chain_comm, agreement_comm}
use libsignal_client.Ratchet.Setup.{
  AliceSignalProtocolParameters, BobSignalProtocolParameters, derive_keys, alice_one_time,
  bob_one_time, alice_secrets, bob_secrets, alice_session, initialize_alice_session,
  initialize_bob_session, new_session,
}
use libsignal_client.State.Session.{
  SessionState, root_key, get_sender_chain_key, get_receiver_chain_key, session_version,
  sender_ratchet_private_key, local_identity_key, remote_identity_key, has_sender_chain,
  sender_ratchet_key, push_chain, find_chain, add_receiver_chain, set_sender_chain,
}

abbrev version_3 : Hkdf
version_3 = record { iteration_start_offset = 1 }

-- What is stored with keys of the right size is read back.
pub get_sender_chain_key-set_sender_chain :
    (k : KeyPair) (c : Bytes) (i : ℕ) (s : SessionState)
    → s.session_version ≡ 3
    → length c ≡ 32
    → get_sender_chain_key (set_sender_chain k (record { kdf = version_3; key = c; index = i }) s)
      ≡ ok (record { kdf = version_3; key = c; index = i })
unfolding get_sender_chain_key set_sender_chain Kdf.new ChainKey.new
get_sender_chain_key-set_sender_chain k c i s v h = ground arith

pub root_key_lem :
    (r : Bytes) (s : SessionState)
    → s.session_version ≡ 3
    → s.root_key ≡ r
    → length r ≡ 32
    → root_key s ≡ ok (record { kdf = version_3; key = r })
unfolding root_key Kdf.new RootKey.new
root_key_lem r s v e h = ground arith

remote_identity_key_lem :
    (k : PublicKey) (s : SessionState)
    → s.remote_identity_public ≡ PublicKey.serialize k
    → IsKey k
    → remote_identity_key s ≡ ok (some k)
unfolding remote_identity_key PublicKey.serialize
remote_identity_key_lem k s e sized = ground (arith, e, deserialize-serialize k sized)

pub get_receiver_chain_key-add_receiver_chain :
    (k : PublicKey) (c : Bytes) (i : ℕ) (s : SessionState)
    → s.session_version ≡ 3
    → s.receiver_chains ≡ []
    → IsKey k
    → length c ≡ 32
    → get_receiver_chain_key k
        (add_receiver_chain k (record { kdf = version_3; key = c; index = i }) s)
      ≡ ok (some (record { kdf = version_3; key = c; index = i }))
unfolding get_receiver_chain_key add_receiver_chain Kdf.new ChainKey.new push_chain find_chain
get_receiver_chain_key-add_receiver_chain k c i s v e sized h =
    rw (e, deserialize-serialize k sized, bytes_eq_refl (PublicKey.serialize k), v, h) refl

module _ ⦃p : Primitives⦄ where
  abbrev pub key_pair : PrivateKey → KeyPair
  key_pair k = record { public_key = public_key k; private_key = k }

  abbrev pub identity_pair : PrivateKey → IdentityKeyPair
  identity_pair k = record { identity_key = public_key k; private_key = k }

  abbrev pub map_key {ℓ} : {A : Type ℓ} → (PrivateKey → A) → Option PrivateKey → Option A
  map_key f none = none
  map_key f (some k) = some (f k)

  -- Alice's parameters, of her identity and base keys and Bob's identity, signed and one-time keys.
  abbrev pub alice :
      PrivateKey
      → PrivateKey
      → PrivateKey
      → PrivateKey
      → Option PrivateKey
      → AliceSignalProtocolParameters
  alice a_id a_base b_id b_signed b_once = record {
    our_identity_key_pair = identity_pair a_id;
    our_base_key_pair = key_pair a_base;
    their_identity_key = public_key b_id;
    their_signed_pre_key = public_key b_signed;
    their_one_time_pre_key = map_key public_key b_once;
    their_ratchet_key = public_key b_signed;
  }

  abbrev pub bob :
      PrivateKey
      → PrivateKey
      → PrivateKey
      → PrivateKey
      → Option PrivateKey
      → BobSignalProtocolParameters
  bob a_id a_base b_id b_signed b_once = record {
    our_identity_key_pair = identity_pair b_id;
    our_signed_pre_key_pair = key_pair b_signed;
    our_one_time_pre_key_pair = map_key key_pair b_once;
    our_ratchet_key_pair = key_pair b_signed;
    their_identity_key = public_key a_id;
    their_base_key = public_key a_base;
  }

  -- What is derived passes the tests of the constructors.
  pub derive_keys_lem :
      (laws : Lawful p) (secret : Bytes)
      → (r : Bytes) × (c : Bytes) × (derive_keys secret
          ≡ ok
              (record { kdf = version_3; key = r }, record { kdf = version_3; key = c; index = 0 }))
        × (length r ≡ 32)
        × (length c ≡ 32)
  unfolding derive_keys Kdf.new RootKey.new ChainKey.new
  derive_keys_lem laws secret =
      let secrets = derive_secrets version_3 secret (ascii "WhisperText") 64 in
      let size = length-derive_secrets laws version_3 secret (ascii "WhisperText") 64 in
      let left = length-slice 0 32 secrets (omega arith) (omega (arith, size)) in
      let right = length-slice 32 64 secrets (omega arith) (omega (arith, size)) in
      (slice 0 32 secrets, slice 32 64 secrets, ground (arith, left, right), left, right)

  pub create_chain_lengths :
      (laws : Lawful p) (r : RootKey) (their : PublicKey) (our : PrivateKey)
      → (length (create_chain r their our).0.key ≡ 32)
        × (length (create_chain r their our).1.key ≡ 32)
  unfolding create_chain
  create_chain_lengths laws r their our =
      let secret = calculate_agreement their our in
      let secrets = derive_salted_secrets r.kdf secret r.key (ascii "WhisperRatchet") 64 in
      let size = length-derive_salted_secrets laws r.kdf secret r.key (ascii "WhisperRatchet") 64 in
      (
        length-slice 0 32 secrets (omega arith) (omega (arith, size)),
        length-slice 32 64 secrets (omega arith) (omega (arith, size)),
      )

module _ ⦃p : Primitives⦄ (laws : Lawful p) (a_id a_base b_id b_signed : PrivateKey)
    (b_once : Option PrivateKey) where
  one_time_agree :
      (b_once : Option PrivateKey)
      → alice_one_time (map_key public_key b_once) a_base
        ≡ bob_one_time (public_key a_base) (map_key key_pair b_once)
  unfolding alice_one_time bob_one_time
  one_time_agree none = refl
  one_time_agree (some k) = agreement_comm laws a_base k

  -- Both parties compute the same secret from their own private keys.
  pub secrets_agree :
      alice_secrets (alice a_id a_base b_id b_signed b_once)
      ≡ bob_secrets (bob a_id a_base b_id b_signed b_once)
  unfolding alice_secrets bob_secrets
  secrets_agree = rw (
    agreement_comm laws a_id b_signed,
    agreement_comm laws a_base b_id,
    agreement_comm laws a_base b_signed,
    one_time_agree b_once,
  )

  -- The two new sessions, where Alice's generator is at `g` and `ratchet` is the key it gives.
  pub record Agreement (g : ℕ) : Type 0 where
    pub ratchet : PrivateKey
    pub alice_state : SessionState
    pub bob_state : SessionState
    pub shared : RootKey
    pub root : RootKey
    pub first : ChainKey
    pub second : ChainKey
    pub alice_made :
        (initialize_alice_session (alice a_id a_base b_id b_signed b_once) g).0 ≡ ok alice_state
    pub bob_made : initialize_bob_session (bob a_id a_base b_id b_signed b_once) ≡ ok bob_state
    -- Bob sends with the chain that Alice receives with.
    pub bob_sends : get_sender_chain_key bob_state ≡ ok first
    pub alice_receives : get_receiver_chain_key (public_key b_signed) alice_state ≡ ok (some first)
    -- Alice sends with the chain that Bob's ratchet step to her key gives.
    pub alice_ratchet : sender_ratchet_key alice_state ≡ ok (public_key ratchet)
    pub alice_sends : get_sender_chain_key alice_state ≡ ok second
    pub bob_root : root_key bob_state ≡ ok shared
    pub bob_steps : create_chain shared (public_key ratchet) b_signed ≡ (root, second)
    pub alice_root : root_key alice_state ≡ ok root
    -- Each names the other's identity key, and Bob knows no chain yet.
    pub alice_local : local_identity_key alice_state ≡ ok (public_key a_id)
    pub alice_remote : remote_identity_key alice_state ≡ ok (some (public_key b_id))
    pub bob_local : local_identity_key bob_state ≡ ok (public_key b_id)
    pub bob_remote : remote_identity_key bob_state ≡ ok (some (public_key a_id))
    pub alice_version : session_version alice_state ≡ 3
    pub bob_version : session_version bob_state ≡ 3
    pub bob_ratchet :
        sender_ratchet_private_key bob_state
        ≡ PrivateKey.deserialize (PrivateKey.serialize b_signed)
    pub bob_chains : bob_state.receiver_chains ≡ []
    pub bob_sending : has_sender_chain bob_state ≡ true

  -- Whatever the private keys of the two sides, with a one-time pre-key or without: both sides make a
  -- session. Bob sends with the chain that Alice receives with; a ratchet step from Bob's root key,
  -- with Alice's ratchet key and Bob's signed pre-key, gives the root key of Alice and the chain that
  -- she sends with; each side names its own identity key and the other's; both have version 3.
  pub initialize_agree : (g : ℕ) → Agreement g
  unfolding initialize_alice_session initialize_bob_session alice_session new_session
      KeyPair.generate public_key create_chain sender_ratchet_key local_identity_key
      remote_identity_key session_version sender_ratchet_private_key has_sender_chain
      PrivateKey.serialize PublicKey.serialize add_receiver_chain set_sender_chain
      get_receiver_chain_key
  initialize_agree g =
      let (r, c, made, r_size, c_size) =
        derive_keys_lem laws (bob_secrets (bob a_id a_base b_id b_signed b_once)) in
      let shared : RootKey = record { kdf = version_3; key = r } in
      let first : ChainKey = record { kdf = version_3; key = c; index = 0 } in
      let ratchet : PrivateKey = record { key = (p.static_secret g).0 } in
      let their = public_key b_signed in
      let step = create_chain shared their ratchet in
      let sizes = create_chain_lengths laws shared their ratchet in
      let a0 = new_session (public_key a_id) (public_key b_id) step.0 in
      let a1 = add_receiver_chain their first a0 in
      let b0 = new_session (public_key b_id) (public_key a_id) shared in
      let a2 = set_sender_chain (key_pair ratchet) step.1 a1 in
      let b1 = set_sender_chain (key_pair b_signed) first b0 in
      record {
        ratchet = ratchet;
        alice_state = a2;
        bob_state = b1;
        shared = shared;
        root = step.0;
        first = first;
        second = step.1;
        alice_made = rw (secrets_agree, made) refl;
        bob_made = rw made refl;
        bob_sends = get_sender_chain_key-set_sender_chain (key_pair b_signed) c 0 b0 refl c_size;
        alice_receives =
            get_receiver_chain_key-add_receiver_chain their c 0 a0 refl refl
              (laws.x25519_public_length b_signed.key) c_size;
        alice_ratchet =
            deserialize-serialize (public_key ratchet) (laws.x25519_public_length ratchet.key);
        alice_sends =
            get_sender_chain_key-set_sender_chain (key_pair ratchet) step.1.key 0 a1 refl sizes.1;
        bob_root = root_key_lem r _ refl refl r_size;
        bob_steps = create_chain_comm laws shared b_signed ratchet;
        alice_root = root_key_lem step.0.key _ refl refl sizes.0;
        alice_local = deserialize-serialize (public_key a_id) (laws.x25519_public_length a_id.key);
        alice_remote =
            remote_identity_key_lem (public_key b_id) a2 refl (laws.x25519_public_length b_id.key);
        bob_local = deserialize-serialize (public_key b_id) (laws.x25519_public_length b_id.key);
        bob_remote =
            remote_identity_key_lem (public_key a_id) b1 refl (laws.x25519_public_length a_id.key);
        alice_version = refl;
        bob_version = refl;
        bob_ratchet = refl;
        bob_chains = refl;
        bob_sending = refl;
      }
