-- ===== src/Session/Safe.antt =====
-- What `process_prekey_bundle` of rust/protocol/src/session.rs promises.
use libsignal_client.Common.{◌≡◌, refl, sym, ◌∙◌, true, some, arith, inl, inr}
use libsignal_client.Common.Assoc.{get-insert}
use libsignal_client.Address.{ProtocolAddress, address_eq_iff, address_eq_instance}
use libsignal_client.Error.{SignalProtocolError, ok, err, Result-cases}
use libsignal_client.Primitives.{Primitives, Lawful}
use libsignal_client.Curve.PublicKey
use libsignal_client.Curve.PublicKey.{verify_signature}
use libsignal_client.Session.Parts.{check_bundle, bundle_session}
use libsignal_client.Session.Process.{or_fresh, save, process_prekey_bundle}
use libsignal_client.State.Bundle.{PreKeyBundle}
use libsignal_client.State.Session.{SessionState}
use libsignal_client.State.Record.{promote_state}
use libsignal_client.Storage.{
  sending, is_trusted_identity, get_identity, load_session, store_session,
}
use libsignal_client.Storage.Trust.{get_identity-save_identity}
use libsignal_client.Storage.Stores.{Stores}

module _ ⦃p : Primitives⦄ (a : ProtocolAddress) (b : PreKeyBundle) where
  check_bundle-ok :
      (s : Stores)
      → check_bundle a b s ≡ ok tt
      → (is_trusted_identity a b.identity_key sending s.identity_store ≡ true)
        × (verify_signature b.identity_key
              (PublicKey.serialize b.signed_pre_key_public)
              b.signed_pre_key_signature
            ≡ ok true)
  unfolding check_bundle
  check_bundle-ok s h = (ground arith, ground arith)

  -- What a bundle that was processed has passed, and what is stored.
  pub record Started (s t : Stores) : Type 0 where
    pub trusted : is_trusted_identity a b.identity_key sending s.identity_store ≡ true
    pub signed :
        verify_signature b.identity_key
          (PublicKey.serialize b.signed_pre_key_public)
          b.signed_pre_key_signature
        ≡ ok true
    pub known : get_identity a t.identity_store ≡ some b.identity_key
    pub session : SessionState
    pub drawn : (bundle_session b s).0 ≡ ok session
    pub stored :
        load_session a t.session_store
        ≡ some (promote_state session (or_fresh (load_session a s.session_store)))
    pub pre_keys : t.pre_key_store ≡ s.pre_key_store

  started :
      Lawful p
      → (s t : Stores) (session : SessionState) → check_bundle a b s ≡ ok tt
      → (bundle_session b s).0 ≡ ok session
      → t ≡ record (save a b.identity_key (record s { csprng = (bundle_session b s).1 })) {
        session_store =
            store_session a
              (promote_state session (or_fresh (load_session a s.session_store)))
              s.session_store;
      }
      → Started s t
  unfolding load_session store_session
  started laws s t session checked drawn e = rw e (record {
    trusted = (check_bundle-ok s checked).0;
    signed = (check_bundle-ok s checked).1;
    known =
        get_identity-save_identity laws a b.identity_key s.identity_store a
        ∙ ground (arith, address_eq_iff a a);
    session = session;
    drawn = drawn;
    stored = get-insert a a _ s.session_store ∙ ground (arith, address_eq_iff a a);
    pre_keys = refl;
  })

  -- A bundle that is processed had a trusted identity and a good signature; afterwards the identity
  -- is known, and the session drawn for the bundle is current in the stored record, the one before
  -- it archived.
  pub process_prekey_bundle-Started :
      Lawful p → (s t : Stores) → process_prekey_bundle a b s ≡ (ok tt, t) → Started s t
  unfolding process_prekey_bundle
  process_prekey_bundle-Started laws s t h = elim (Result-cases (check_bundle a b s)) [
    | inr (x, bad) ↦ absurd (cc (rw bad at h))
    | inl (_, good) ↦ elim (Result-cases (bundle_session b s).0) [
      | inr (x, bad) ↦ absurd (cc (rw (good, bad) at h))
      | inl (session, drawn) ↦
          let h' = rw (good, drawn) at h in
          started laws s t session good drawn (sym (λ i. (h' i).1))
    ]
  ]

  -- A bundle that is refused, or gives no session, leaves the stores as they were but for the
  -- generator.
  pub process_prekey_bundle_fails :
      (s t : Stores) (e : SignalProtocolError)
      → process_prekey_bundle a b s ≡ (err e, t)
      → record t { csprng = s.csprng } ≡ s
  unfolding process_prekey_bundle
  process_prekey_bundle_fails s t e h = elim (Result-cases (check_bundle a b s)) [
    | inr (x, bad) ↦ let h' = rw bad at h in sym (λ i. record (h' i).1 { csprng = s.csprng })
    | inl (_, good) ↦ elim (Result-cases (bundle_session b s).0) [
      | inr (x, bad) ↦
          let h' = rw (good, bad) at h in sym (λ i. record (h' i).1 { csprng = s.csprng })
      | inl (session, drawn) ↦ absurd (cc (rw (good, drawn) at h))
    ]
  ]
