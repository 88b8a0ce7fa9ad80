-- ===== src/Session/Process.antt =====
-- The functions of rust/protocol/src/session.rs.
use libsignal_client.Common.{ℕ, if◌then◌else◌, Option, none, some}
use libsignal_client.Address.{ProtocolAddress}
use libsignal_client.Error.{ok, untrusted_identity}
use libsignal_client.Exec.{Exec, pure, lift, query, gets, modify, ensure, ◌>>=◌, ◌>>◌}
use libsignal_client.Primitives.{Primitives}
use libsignal_client.Curve.PublicKey
use libsignal_client.Curve.PublicKey.{PublicKey, verify_signature}
use libsignal_client.Protocol.PreKeySignalMessage.{PreKeySignalMessage}
use libsignal_client.Ratchet.Setup.{initialize_bob_session}
use libsignal_client.State.Bundle.{PreKeyBundle}
use libsignal_client.State.Record.{
  SessionRecord, new_fresh, has_session_state, archive_current_state, promote_state,
}
use libsignal_client.Storage.{
  receiving, is_trusted_identity, save_identity, load_session, store_session,
}
use libsignal_client.Storage.Stores.{Stores, Loaded}
use libsignal_client.Session.Parts.{bob_parameters, dress_session, check_bundle, bundle_session}

abbrev pub or_fresh : Option SessionRecord → SessionRecord
unfolding new_fresh
or_fresh none = new_fresh
or_fresh (some r) = r

-- The flag that `save_identity` returns is not looked at by its callers.
abbrev pub save : ⦃p : Primitives⦄ → ProtocolAddress → PublicKey → Stores → Stores
save address identity s = record s {
  identity_store = (save_identity address identity s.identity_store).1;
}

module _ ⦃p : Primitives⦄ where
  -- What follows once no session is known for the message.
  unfoldable pub start_session : PreKeySignalMessage → Exec Loaded (Option ℕ)
  unfolding bob_parameters dress_session
  start_session message = do
    parameters ← query (λ (l : Loaded). bob_parameters message l.stores)
    modify (λ (l : Loaded). record l { session_record = archive_current_state l.session_record })
    new_session ← lift (initialize_bob_session parameters)
    modify (λ (l : Loaded). record l {
      session_record = promote_state (dress_session message l.stores new_session) l.session_record;
    })
    pure message.pre_key_id

  unfoldable pub process_prekey_v3 : PreKeySignalMessage → Exec Loaded (Option ℕ)
  unfolding start_session
  process_prekey_v3 message l =
      if has_session_state message.message_version (PublicKey.serialize message.base_key)
        l.session_record
      then (ok none, l)
      else start_session message l

  unfoldable pub process_prekey : PreKeySignalMessage → ProtocolAddress → Exec Loaded (Option ℕ)
  unfolding process_prekey_v3
  process_prekey message remote_address = do
    let their_identity_key = message.identity_key
    trusted ← gets (λ (l : Loaded).
        is_trusted_identity remote_address their_identity_key receiving l.stores.identity_store)
    ensure trusted (untrusted_identity remote_address)
    unsigned_pre_key_id ← process_prekey_v3 message
    modify (λ (l : Loaded). record l { stores = save remote_address their_identity_key l.stores })
    pure unsigned_pre_key_id

  unfoldable pub process_prekey_bundle : ProtocolAddress → PreKeyBundle → Exec Stores (Unit {0})
  unfolding check_bundle bundle_session
  process_prekey_bundle remote_address bundle = do
    query (check_bundle remote_address bundle)
    loaded ← gets (λ (s : Stores). load_session remote_address s.session_store)
    session ← λ (s : Stores). let (r, g) = bundle_session bundle s in (r, record s { csprng = g })
    modify (save remote_address bundle.identity_key)
    modify (λ (s : Stores). record s {
      session_store =
          store_session remote_address (promote_state session (or_fresh loaded)) s.session_store;
    })
