-- ===== src/SessionCipher/Messages/Untouched.antt =====
-- A message that cannot be decrypted, or encrypted, leaves the stored sessions and keys as they
-- were; what it may leave behind is the identity key of the sender and the state of the generator.
use libsignal_client.Common.{
  ℕ, ◌≡◌, refl, ◌∙◌, Bool, true, false, Option, arith, Bool-cases, inl, inr, if◌then◌else◌,
}
use libsignal_client.Common.Bytes.{Bytes}
use libsignal_client.Address.{ProtocolAddress}
use libsignal_client.Error.{
  SignalProtocolError, untrusted_identity, invalid_argument, invalid_session_structure, ok_or, err,
}
use libsignal_client.Exec.{gets, modify, lift, query, pure, raise, ◌>>=◌, ensure}
use libsignal_client.Exec.Keeps.{Frame, Keeps, bind_kept, ensure-Keeps, Keeps-at}
use libsignal_client.Primitives.{Primitives}
use libsignal_client.Curve.PublicKey
use libsignal_client.Curve.PublicKey.{PublicKey}
use libsignal_client.Protocol.Wire.{Codec}
use libsignal_client.Protocol.SignalMessage.{SignalMessage}
use libsignal_client.Protocol.PreKeySignalMessage.{PreKeySignalMessage}
use libsignal_client.Protocol.Ciphertext.{
  CiphertextMessage, signal_message, pre_key_signal_message, sender_key_message,
  sender_key_distribution_message,
}
use libsignal_client.Session.Parts.{bob_parameters}
use libsignal_client.SessionCipher.Encrypt.{encrypt_with_state}
use libsignal_client.State.Session.{remote_identity_key}
use libsignal_client.Session.Process.{
  save, or_fresh, process_prekey, process_prekey_v3, start_session,
}
use libsignal_client.State.Record.{SessionRecord, session_state, has_session_state}
use libsignal_client.Storage.{Direction, sending, receiving, is_trusted_identity, load_session}
use libsignal_client.Storage.Stores.{Stores, Loaded}
use libsignal_client.SessionCipher.Messages.{
  load, store, trust_and_save, their_identity, with_record, process, remove_used,
  message_decrypt_signal, message_decrypt_prekey, message_decrypt, message_encrypt,
}

-- The same sessions, pre-keys and signed pre-keys, and the same own identity.
pub record Untouched (s t : Stores) : Type 0 where
  pub sessions : t.session_store ≡ s.session_store
  pub pre_keys : t.pre_key_store ≡ s.pre_key_store
  pub signed_pre_keys : t.signed_pre_key_store ≡ s.signed_pre_key_store

Untouched-refl : (s : Stores) → Untouched s s
Untouched-refl s = record { sessions = refl; pre_keys = refl; signed_pre_keys = refl }

abbrev frame : Frame Stores
frame = record {
  Kept = Untouched;
  same = Untouched-refl;
  then_kept = λ s t u a b. record {
    sessions = b.sessions ∙ a.sessions;
    pre_keys = b.pre_keys ∙ a.pre_keys;
    signed_pre_keys = b.signed_pre_keys ∙ a.signed_pre_keys;
  };
}

abbrev loaded_frame : Frame Loaded
loaded_frame = record {
  Kept = λ k l. Untouched k.stores l.stores;
  same = λ l. Untouched-refl l.stores;
  then_kept = λ s t u a b. frame.then_kept s.stores t.stores u.stores a b;
}

if_Untouched : (b : Bool) (s t : Stores) → Untouched s t → Untouched s (if b then t else s)
if_Untouched true s t h = h
if_Untouched false s t h = Untouched-refl s

module _ ⦃p : Primitives⦄ (a : ProtocolAddress) (k : PublicKey) (d : Direction) where
  trust_and_save-Keeps : Keeps frame (trust_and_save a k d)
  trust_and_save-Keeps s =
      bind_kept frame (gets (λ (x : Stores). is_trusted_identity a k d x.identity_store)) _ s
        (λ u. Untouched-refl u)
        (λ trusted u.
          bind_kept frame (ensure trusted (untrusted_identity a)) _ u
            (ensure-Keeps frame trusted (untrusted_identity a))
            (λ _ v.
              Keeps-at frame (modify (save a k)) v
                (λ x. record { sessions = refl; pre_keys = refl; signed_pre_keys = refl })))
        refl

their_identity-Keeps : (r : SessionRecord) → Keeps frame (their_identity r)
their_identity-Keeps r s =
    bind_kept frame (lift (session_state r)) _ s (λ u. Untouched-refl u)
      (λ state u.
        bind_kept frame (lift (remote_identity_key state)) _ u (λ v. Untouched-refl v)
          (λ remote v.
            Keeps-at frame (lift (ok_or remote invalid_session_structure)) v
              (λ x. Untouched-refl x)))
      refl

module _ ⦃p : Primitives⦄ where
  with_record-Keeps : (m : SignalMessage) (r : SessionRecord) → Keeps frame (with_record m r)
  with_record-Keeps m r s = record { sessions = refl; pre_keys = refl; signed_pre_keys = refl }

  start_session-Keeps : (m : PreKeySignalMessage) → Keeps loaded_frame (start_session m)
  unfolding start_session
  start_session-Keeps m l =
      bind_kept loaded_frame (query (λ (x : Loaded). bob_parameters m x.stores)) _ l
        (λ k. Untouched-refl k.stores) (λ parameters k h. ground (arith, h)) refl

  v3-Keeps : (m : PreKeySignalMessage) → Keeps loaded_frame (process_prekey_v3 m)
  unfolding process_prekey_v3
  v3-Keeps m l =
      elim (Bool-cases
        (has_session_state m.message_version (PublicKey.serialize m.base_key) l.session_record)) [
          | inl known ↦ rw known (Untouched-refl l.stores)
          | inr fresh ↦ rw fresh (start_session-Keeps m l)
        ]

  process_prekey-Keeps :
      (m : PreKeySignalMessage) (a : ProtocolAddress) → Keeps loaded_frame (process_prekey m a)
  unfolding process_prekey
  process_prekey-Keeps m a l =
      bind_kept loaded_frame
        (gets
          (λ (x : Loaded). is_trusted_identity a m.identity_key receiving x.stores.identity_store))
        _ l (λ k. Untouched-refl k.stores)
        (λ trusted k.
          bind_kept loaded_frame (ensure trusted (untrusted_identity a)) _ k
            (ensure-Keeps loaded_frame trusted (untrusted_identity a))
            (λ _ k. bind_kept loaded_frame (process_prekey_v3 m) _ k (v3-Keeps m) (λ id k.
              bind_kept loaded_frame
                (modify (λ (x : Loaded). record x { stores = save a m.identity_key x.stores })) _ k
                (λ x. record { sessions = refl; pre_keys = refl; signed_pre_keys = refl })
                (λ _ k. Keeps-at loaded_frame (pure id) k (λ x. Untouched-refl x.stores)))))
        refl

  process-Keeps :
      (m : PreKeySignalMessage) (a : ProtocolAddress) (r : SessionRecord)
      → Keeps frame (process m a r)
  process-Keeps m a r s = process_prekey-Keeps m a (record { stores = s; session_record = r })

  -- Once the record is stored, no failure follows.
  stored_ok :
      (a : ProtocolAddress) (r : SessionRecord) (id : Option ℕ) (ptext : Bytes) (u : Stores)
      {e : SignalProtocolError} {t : Stores}
      → (store a r >>= λ _. (modify (remove_used id) >>= λ _. pure ptext)) u ≡ (err e, t)
      → Untouched u t
  stored_ok a r id ptext u h = cc

  -- A failing decryption of a message leaves the stored sessions, pre-keys and signed pre-keys as
  -- they were, whatever the failure and however late it comes.
  pub message_decrypt_fails :
      (m : CiphertextMessage) (a : ProtocolAddress) (s t : Stores) (e : SignalProtocolError)
      → message_decrypt m a s ≡ (err e, t)
      → Untouched s t
  unfolding message_decrypt message_decrypt_signal message_decrypt_prekey
  message_decrypt_fails (signal_message m) a s t e h =
      bind_kept frame (load a) _ s (λ u. Untouched-refl u)
        (λ r u. bind_kept frame (with_record m r) _ u (with_record-Keeps m r) (λ (ptext, r') v.
          bind_kept frame (their_identity r') _ v (their_identity-Keeps r') (λ k x.
            bind_kept frame (trust_and_save a k receiving) _ x (trust_and_save-Keeps a k receiving)
              (λ _ y done. cc))))
        h
  message_decrypt_fails (pre_key_signal_message m) a s t e h =
      bind_kept frame (gets (λ (x : Stores). load_session a x.session_store)) _ s
        (λ u. Untouched-refl u)
        (λ loaded u.
          bind_kept frame (process m a (or_fresh loaded)) _ u (process-Keeps m a (or_fresh loaded))
            (λ q v.
              bind_kept frame (with_record m.message q.1) _ v (with_record-Keeps m.message q.1)
                (λ o x done. stored_ok a o.1 q.0 o.0 x done)))
        h
  message_decrypt_fails (sender_key_message m) a s t e h =
      Keeps-at frame
        (raise (invalid_argument "SessionCipher::decrypt cannot decrypt this message type")) s
        (λ u. Untouched-refl u) h
  message_decrypt_fails (sender_key_distribution_message m) a s t e h =
      Keeps-at frame
        (raise (invalid_argument "SessionCipher::decrypt cannot decrypt this message type")) s
        (λ u. Untouched-refl u) h

  -- A failing encryption leaves the stored sessions, pre-keys and signed pre-keys as they were: the
  -- sending chain that is stored has not moved.
  pub message_encrypt_fails :
      ⦃c : Codec⦄
      → (ptext : Bytes) (a : ProtocolAddress) (s t : Stores) (e : SignalProtocolError)
      → message_encrypt ptext a s ≡ (err e, t)
      → Untouched s t
  unfolding message_encrypt
  message_encrypt_fails ptext a s t e h =
      bind_kept frame (load a) _ s (λ u. Untouched-refl u)
        (λ r u.
          bind_kept frame (lift (session_state r)) _ u (λ v. Untouched-refl v)
            (λ state v.
              bind_kept frame (lift (encrypt_with_state ptext state)) _ v (λ x. Untouched-refl x)
                (λ (message, state', their) x.
                  bind_kept frame (trust_and_save a their sending) _ x
                    (trust_and_save-Keeps a their sending) (λ _ y done. cc))))
        h
