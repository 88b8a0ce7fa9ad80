-- ===== src/SessionCipher/Messages/Spent.antt =====
-- What a message that starts a session leaves in the stores, for `message_decrypt_prekey` of
-- rust/protocol/src/session_cipher.rs.
use libsignal_client.Common.{
  ℕ, ◌≡◌, refl, sym, ◌∙◌, Bool-cases, inl, inr, false, Option, some, arith, ==_refl,
}
use libsignal_client.Common.Assoc.{get-remove, get-insert, nat_eq}
use libsignal_client.Common.Bytes.{Bytes}
use libsignal_client.Address.{ProtocolAddress, address_eq_iff, address_eq_instance}
use libsignal_client.Error.{Result-cases, ok, err, invalid_pre_key_id}
use libsignal_client.Exec.{>>=-eq-ok, ◌>>=◌, pure, modify, query, lift}
use libsignal_client.Primitives.{Primitives}
use libsignal_client.Curve.PublicKey
use libsignal_client.Protocol.PreKeySignalMessage.{PreKeySignalMessage}
use libsignal_client.Session.Process.{or_fresh, start_session, process_prekey_v3, process_prekey}
use libsignal_client.Session.Parts.{bob_parameters}
use libsignal_client.Ratchet.Setup.{initialize_bob_session}
use libsignal_client.SessionCipher.Messages.{
  with_record, process, remove_used, store, message_decrypt_prekey,
}
use libsignal_client.State.Record.{SessionRecord, has_session_state}
use libsignal_client.Storage.{
  load_session, store_session, get_pre_key, remove_pre_key, receiving, is_trusted_identity,
}
use libsignal_client.Storage.Stores.{Stores, Loaded}

module _ ⦃p : Primitives⦄ where
  start_session-id :
      (m : PreKeySignalMessage) (l l' : Loaded) {id : Option ℕ}
      → start_session m l ≡ (ok id, l')
      → m.pre_key_id ≡ id
  unfolding start_session
  start_session-id m l l' h =
      let (parameters, u, read, h1) =
        >>=-eq-ok (query (λ (k : Loaded). bob_parameters m k.stores)) _ l h in
      let (session, v, made, h2) = >>=-eq-ok (lift (initialize_bob_session parameters)) _ _ h1 in cc

  process_prekey_v3-id :
      (m : PreKeySignalMessage) (l l' : Loaded) {id : Option ℕ}
      → has_session_state m.message_version (PublicKey.serialize m.base_key) l.session_record
        ≡ false
      → process_prekey_v3 m l ≡ (ok id, l')
      → m.pre_key_id ≡ id
  unfolding process_prekey_v3
  process_prekey_v3-id m l l' new h = start_session-id m l l' (rw new at h)

  process_prekey-id :
      (m : PreKeySignalMessage) (a : ProtocolAddress) (l l' : Loaded) {id : Option ℕ}
      → has_session_state m.message_version (PublicKey.serialize m.base_key) l.session_record
        ≡ false
      → process_prekey m a l ≡ (ok id, l')
      → m.pre_key_id ≡ id
  unfolding process_prekey
  process_prekey-id m a l l' new h =
      elim (Bool-cases (is_trusted_identity a m.identity_key receiving l.stores.identity_store)) [
        | inr refused ↦ absurd (cc (rw refused at h))
        | inl trusted ↦
            let (id', u, run, h1) = >>=-eq-ok (process_prekey_v3 m) _ l (rw trusted at h) in
            let e : m.pre_key_id ≡ id' = process_prekey_v3-id m l u new run in cc
      ]

  process-id :
      (m : PreKeySignalMessage) (a : ProtocolAddress) (r : SessionRecord) (s u : Stores)
      {q : Option ℕ × SessionRecord}
      → has_session_state m.message_version (PublicKey.serialize m.base_key) r ≡ false
      → process m a r s ≡ (ok q, u)
      → m.pre_key_id ≡ q.0
  process-id m a r s u new h =
      let l : Loaded = record { stores = s; session_record = r } in
      elim (Result-cases (process_prekey m a l).0) [
        | inr (e, bad) ↦ absurd (cc (rw bad at h))
        | inl (id, good) ↦
            let e : m.pre_key_id ≡ id =
              process_prekey-id m a l (process_prekey m a l).1 new
                (λ i. (good i, (process_prekey m a l).1)) in
            let h' = rw good at h in e ∙ λ i. elim (h' i).0 [ ok z ↦ z.0 | err z ↦ id ]
      ]

  spent :
      (a : ProtocolAddress) (r : SessionRecord) (id : ℕ) (ptext text : Bytes) (u t : Stores)
      → (store a r >>= λ _. (modify (remove_used (some id)) >>= λ _. pure ptext)) u ≡ (ok text, t)
      → (get_pre_key id t.pre_key_store ≡ err invalid_pre_key_id)
        × (load_session a t.session_store ≡ some r)
  unfolding get_pre_key remove_pre_key load_session store_session
  spent a r id ptext text u t h = rw (sym (λ i. (h i).1)) (
    rw (get-remove id id u.pre_key_store, ==_refl id) refl,
    get-insert a a r u.session_store ∙ ground (arith, address_eq_iff a a),
  )

  -- A message that names a one-time pre-key and belongs to no session of the sender's record, once
  -- it is decrypted, has used the key up: the key is looked for in vain afterwards. A session record
  -- is stored for the sender.
  pub message_decrypt_prekey-spent :
      (m : PreKeySignalMessage) (a : ProtocolAddress) (id : ℕ) (s t : Stores) (text : Bytes)
      → m.pre_key_id ≡ some id
      → has_session_state m.message_version
          (PublicKey.serialize m.base_key)
          (or_fresh (load_session a s.session_store))
        ≡ false
      → message_decrypt_prekey m a s ≡ (ok text, t)
      → (get_pre_key id t.pre_key_store ≡ err invalid_pre_key_id)
        × (r : SessionRecord) × (load_session a t.session_store ≡ some r)
  unfolding message_decrypt_prekey
  message_decrypt_prekey-spent m a id s t text named new h =
      let l = or_fresh (load_session a s.session_store) in
      let (q, u, run, h1) = >>=-eq-ok (process m a l) _ s h in
      let (o, v, decrypted, h2) = >>=-eq-ok (with_record m.message q.1) _ u h1 in
      let used : q.0 ≡ some id = sym (process-id m a l s u new run) ∙ named in
      let (gone, stored) = spent a o.1 id o.0 text v t (rw used at h2) in (gone, o.1, stored)
