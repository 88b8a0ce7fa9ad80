-- ===== src/Ratchet/Setup.antt =====
-- rust/protocol/src/ratchet.rs and rust/protocol/src/ratchet/params.rs: the sessions that the two
-- parties of a key agreement start with.
pub mod Agree
use libsignal_client.Common.{
  ℕ, zero, Bool, true, false, Option, none, some, [], ◌∷◌, ◌++◌, replicate, slice, ltb,
  if◌then◌else◌,
}
use libsignal_client.Common.Bytes.{Bytes, ascii}
use libsignal_client.Error.{Result, ok, ◌>>=◌}
use libsignal_client.Primitives.{Primitives}
use libsignal_client.Curve.PublicKey
use libsignal_client.Curve.PublicKey.{PublicKey}
use libsignal_client.Curve.PrivateKey.{PrivateKey, calculate_agreement}
use libsignal_client.Curve.KeyPair
use libsignal_client.Curve.KeyPair.{KeyPair}
use libsignal_client.IdentityKey.{IdentityKeyPair}
use libsignal_client.Kdf
use libsignal_client.Kdf.{derive_secrets}
use libsignal_client.Ratchet.ChainKey
use libsignal_client.Ratchet.ChainKey.{ChainKey}
use libsignal_client.Ratchet.RootKey
use libsignal_client.Ratchet.RootKey.{RootKey, create_chain}
use libsignal_client.Protocol.SignalMessage.{ciphertext_message_current_version}
use libsignal_client.State.Session.{SessionState, add_receiver_chain, set_sender_chain}

pub record AliceSignalProtocolParameters : Type 0 where
  pub our_identity_key_pair : IdentityKeyPair
  pub our_base_key_pair : KeyPair
  pub their_identity_key : PublicKey
  pub their_signed_pre_key : PublicKey
  pub their_one_time_pre_key : Option PublicKey
  pub their_ratchet_key : PublicKey

pub record BobSignalProtocolParameters : Type 0 where
  pub our_identity_key_pair : IdentityKeyPair
  pub our_signed_pre_key_pair : KeyPair
  pub our_one_time_pre_key_pair : Option KeyPair
  pub our_ratchet_key_pair : KeyPair
  pub their_identity_key : PublicKey
  pub their_base_key : PublicKey

abbrev pub discontinuity_bytes : Bytes
unfolding replicate
discontinuity_bytes = replicate 32 0xFF

-- The structure that both parties fill in: a session with no chains.
unfoldable pub new_session : PublicKey → PublicKey → RootKey → SessionState
new_session local_identity their_identity_key root = record {
  session_version = ciphertext_message_current_version;
  local_identity_public = PublicKey.serialize local_identity;
  remote_identity_public = PublicKey.serialize their_identity_key;
  root_key = root.key;
  previous_counter = 0;
  sender_chain = none;
  receiver_chains = [];
  pending_pre_key = none;
  remote_registration_id = 0;
  local_registration_id = 0;
  needs_refresh = false;
  alice_base_key = [];
}

unfoldable pub bytes_lt : Bytes → Bytes → Bool
bytes_lt [] [] = false
bytes_lt [] (b ∷ bs) = true
bytes_lt (a ∷ as') [] = false
bytes_lt (a ∷ as') (b ∷ bs) =
    let rest = bytes_lt as' bs in if ltb a b then true else if ltb b a then false else rest

unfoldable pub are_we_alice : PublicKey → PublicKey → Bool
unfolding bytes_lt
are_we_alice our_key their_key =
    bytes_lt (PublicKey.serialize our_key) (PublicKey.serialize their_key)

module _ ⦃p : Primitives⦄ where
  unfoldable pub derive_keys : Bytes → Result (RootKey × ChainKey)
  derive_keys secret_input = do
    kdf ← Kdf.new 3
    let secrets = derive_secrets kdf secret_input (ascii "WhisperText") 64
    root_key ← RootKey.new kdf (slice 0 32 secrets)
    chain_key ← ChainKey.new kdf (slice 32 64 secrets) 0
    ok (root_key, chain_key)

  unfoldable pub alice_one_time : Option PublicKey → PrivateKey → Bytes
  alice_one_time none our_base_private_key = []
  alice_one_time (some their_one_time_prekey) our_base_private_key =
      calculate_agreement their_one_time_prekey our_base_private_key

  unfoldable pub alice_secrets : AliceSignalProtocolParameters → Bytes
  unfolding alice_one_time
  alice_secrets a =
      let our_base_private_key = a.our_base_key_pair.private_key in
      discontinuity_bytes
      ++ (calculate_agreement a.their_signed_pre_key a.our_identity_key_pair.private_key
          ++ (calculate_agreement a.their_identity_key our_base_private_key
              ++ (calculate_agreement a.their_signed_pre_key our_base_private_key
                  ++ alice_one_time a.their_one_time_pre_key our_base_private_key)))

  unfoldable pub bob_one_time : PublicKey → Option KeyPair → Bytes
  bob_one_time their_base_key none = []
  bob_one_time their_base_key (some our_one_time_pre_key_pair) =
      calculate_agreement their_base_key our_one_time_pre_key_pair.private_key

  unfoldable pub bob_secrets : BobSignalProtocolParameters → Bytes
  unfolding bob_one_time
  bob_secrets b =
      discontinuity_bytes
      ++ (calculate_agreement b.their_identity_key b.our_signed_pre_key_pair.private_key
          ++ (calculate_agreement b.their_base_key b.our_identity_key_pair.private_key
              ++ (calculate_agreement b.their_base_key b.our_signed_pre_key_pair.private_key
                  ++ bob_one_time b.their_base_key b.our_one_time_pre_key_pair)))

  -- The session of the drawn ratchet key.
  unfoldable pub alice_session : AliceSignalProtocolParameters → KeyPair → Result SessionState
  unfolding new_session alice_secrets derive_keys
  alice_session a sending_ratchet_key = do
    (root_key, chain_key) ← derive_keys (alice_secrets a)
    let chain = create_chain root_key a.their_ratchet_key sending_ratchet_key.private_key
    let session = new_session a.our_identity_key_pair.identity_key a.their_identity_key chain.0
    let receiving = add_receiver_chain a.their_ratchet_key chain_key session
    ok (set_sender_chain sending_ratchet_key chain.1 receiving)

  -- With the generator after the ratchet key that the session draws.
  unfoldable pub initialize_alice_session :
      AliceSignalProtocolParameters → ℕ → Result SessionState × ℕ
  unfolding alice_session
  initialize_alice_session a csprng =
      let (sending_ratchet_key, csprng') = KeyPair.generate csprng in
      (alice_session a sending_ratchet_key, csprng')

  unfoldable pub initialize_bob_session : BobSignalProtocolParameters → Result SessionState
  unfolding new_session bob_secrets derive_keys
  initialize_bob_session b = do
    (root_key, chain_key) ← derive_keys (bob_secrets b)
    let session = new_session b.our_identity_key_pair.identity_key b.their_identity_key root_key
    ok (set_sender_chain b.our_ratchet_key_pair chain_key session)
