-- ===== src/Session/Parts.antt =====
-- The parts of the functions of rust/protocol/src/session.rs that only read the stores.
use libsignal_client.Common.{ℕ, not, if◌then◌else◌, Option, none, some}
use libsignal_client.Address.{ProtocolAddress}
use libsignal_client.Error.{
  Result, ok, err, ◌>>=◌, map_ok, untrusted_identity, signature_validation_failed,
}
use libsignal_client.Primitives.{Primitives}
use libsignal_client.Curve.PublicKey
use libsignal_client.Curve.PublicKey.{PublicKey, verify_signature}
use libsignal_client.Curve.KeyPair
use libsignal_client.Curve.KeyPair.{KeyPair}
use libsignal_client.Protocol.PreKeySignalMessage.{PreKeySignalMessage}
use libsignal_client.Ratchet.Setup.{BobSignalProtocolParameters, initialize_alice_session}
use libsignal_client.State.PreKey
use libsignal_client.State.SignedPreKey
use libsignal_client.State.Bundle.{PreKeyBundle}
use libsignal_client.State.Session.{
  SessionState, set_local_registration_id, set_remote_registration_id, set_alice_base_key,
  set_unacknowledged_pre_key_message,
}
use libsignal_client.Storage.{sending, is_trusted_identity, get_pre_key, get_signed_pre_key}
use libsignal_client.Storage.Stores.{Stores}

unfoldable pub one_time_key_pair : Option ℕ → Stores → Result (Option KeyPair)
one_time_key_pair none s = ok none
one_time_key_pair (some pre_key_id) s = do
  r ← get_pre_key pre_key_id s.pre_key_store
  map_ok some (PreKey.key_pair r)

module _ ⦃p : Primitives⦄ where
  unfoldable pub bob_parameters : PreKeySignalMessage → Stores → Result BobSignalProtocolParameters
  unfolding one_time_key_pair
  bob_parameters message s = do
    r ← get_signed_pre_key message.signed_pre_key_id s.signed_pre_key_store
    our_signed_pre_key_pair ← SignedPreKey.key_pair r
    our_one_time_pre_key_pair ← one_time_key_pair message.pre_key_id s
    ok (record {
      our_identity_key_pair = s.identity_store.key_pair;
      our_signed_pre_key_pair = our_signed_pre_key_pair;
      our_one_time_pre_key_pair = our_one_time_pre_key_pair;
      our_ratchet_key_pair = our_signed_pre_key_pair;
      their_identity_key = message.identity_key;
      their_base_key = message.base_key;
    })

  -- The new session with what the message and the store give it.
  unfoldable pub dress_session : PreKeySignalMessage → Stores → SessionState → SessionState
  dress_session message s new_session = set_alice_base_key (PublicKey.serialize message.base_key) (
      set_remote_registration_id message.registration_id
        (set_local_registration_id s.identity_store.id new_session))

  -- The tests of a bundle: the identity is trusted, and its signature of the key is good.
  unfoldable pub check_bundle : ProtocolAddress → PreKeyBundle → Stores → Result (Unit {0})
  check_bundle remote_address bundle s =
      if not (is_trusted_identity remote_address bundle.identity_key sending s.identity_store)
      then err (untrusted_identity remote_address)
      else do
        valid ←
            verify_signature bundle.identity_key (PublicKey.serialize bundle.signed_pre_key_public)
              bundle.signed_pre_key_signature
        if valid then ok tt else err signature_validation_failed

  -- The session that starts from a bundle, and the generator after the keys it draws.
  unfoldable pub bundle_session : PreKeyBundle → Stores → Result SessionState × ℕ
  bundle_session bundle s =
      let (our_base_key_pair, g) = KeyPair.generate s.csprng in
      let (started, g') =
        initialize_alice_session
          (record {
            our_identity_key_pair = s.identity_store.key_pair;
            our_base_key_pair = our_base_key_pair;
            their_identity_key = bundle.identity_key;
            their_signed_pre_key = bundle.signed_pre_key_public;
            their_one_time_pre_key = bundle.pre_key_public;
            their_ratchet_key = bundle.signed_pre_key_public;
          })
          g in
      (
        map_ok
            (λ session. set_alice_base_key (PublicKey.serialize our_base_key_pair.public_key) (
              set_remote_registration_id bundle.registration_id (
                set_local_registration_id s.identity_store.id (
                  set_unacknowledged_pre_key_message bundle.pre_key_id bundle.signed_pre_key_id
                    our_base_key_pair.public_key session))))
            started,
        g',
      )
