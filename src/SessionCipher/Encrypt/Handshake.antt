-- ===== src/SessionCipher/Encrypt/Handshake.antt =====
-- The first message of a session: what Alice encrypts under the keys she agreed on, Bob decrypts.
use libsignal_client.Common.{
  ℕ, ◌≡◌, refl, sym, ◌∙◌, ap, subst, true, Option, none, some, [], arith, length,
}
use libsignal_client.Common.Bytes.{Bytes}
use libsignal_client.Error.{ok}
use libsignal_client.Primitives.{Primitives, Lawful}
use libsignal_client.Curve.PublicKey
use libsignal_client.Curve.PublicKey.{PublicKey, IsKey}
use libsignal_client.Curve.PrivateKey
use libsignal_client.Curve.PrivateKey.{PrivateKey, public_key}
use libsignal_client.Protocol.Wire.{Codec}
use libsignal_client.Protocol.SignalMessage.{SignalMessage}
use libsignal_client.Protocol.Ciphertext.{CiphertextMessage}
use libsignal_client.Ratchet.ChainKey.{ChainKey}
use libsignal_client.Ratchet.RootKey.{RootKey, create_chain}
use libsignal_client.Ratchet.Setup.Agree.{Agreement, initialize_agree, alice, bob}
use libsignal_client.Ratchet.Setup.{initialize_alice_session, initialize_bob_session}
use libsignal_client.State.Session.{
  SessionState, root_key, get_sender_chain_key, sender_ratchet_key, sender_ratchet_private_key,
  session_version, local_identity_key, remote_identity_key, has_sender_chain,
  get_receiver_chain_key, get_receiver_chain, find_chain, set_sender_chain, set_previous_counter,
  add_receiver_chain, set_root_key, set_alice_base_key, set_remote_registration_id,
  set_local_registration_id, set_unacknowledged_pre_key_message,
}
use libsignal_client.State.Session.WellFormed.{WellFormed}
use libsignal_client.SessionCipher.Keys.{Working, get_or_create_chain_key}
use libsignal_client.SessionCipher.Keys.Skip.{advance}
use libsignal_client.SessionCipher.Keys.Created.{Inputs, ratcheted, create_chain_key_lem}
use libsignal_client.SessionCipher.Keys.Prepared.{get_or_create_chain_key-Prepared}
use libsignal_client.SessionCipher.Encrypt.{encrypt_with_state}
use libsignal_client.SessionCipher.Encrypt.Sent.{carried}
use libsignal_client.SessionCipher.Encrypt.InStep.{InStep, decrypt-encrypt_with_state}
use libsignal_client.SessionCipher.Decrypt.{decrypt_message_with_state}

ok_injective : {a b : SessionState} → ok a ≡ ok b → a ≡ b
ok_injective h = cc

-- A sender under a ratchet key that the receiver has not met, whose chain the receiver's step to
-- that key gives.
record Meeting ⦃p : Primitives⦄ (ratchet : PublicKey) (s r : SessionState) : Type 0 where
  pub root : RootKey
  pub ours : PrivateKey
  pub current : ChainKey
  pub root_is : root_key r ≡ ok root
  pub ours_is : sender_ratchet_private_key r ≡ ok ours
  pub current_is : get_sender_chain_key r ≡ ok current
  pub sending : get_sender_chain_key s ≡ ok (create_chain root ratchet ours).1
  pub ratchet_is : sender_ratchet_key s ≡ ok ratchet
  pub sender : PublicKey
  pub receiver : PublicKey
  pub local_s : local_identity_key s ≡ ok sender
  pub remote_s : remote_identity_key s ≡ ok (some receiver)
  pub local_r : local_identity_key r ≡ ok receiver
  pub remote_r : remote_identity_key r ≡ ok (some sender)
  pub version : session_version s ≡ session_version r
  pub sends : has_sender_chain r ≡ true
  pub chains : r.receiver_chains ≡ []

unknown :
    (ratchet : PublicKey) (r : SessionState)
    → r.receiver_chains ≡ []
    → get_receiver_chain_key ratchet r ≡ ok none
unfolding get_receiver_chain_key get_receiver_chain find_chain
unknown ratchet r h = rw (h, find_chain) refl

no_chains-WellFormed : (r : SessionState) → r.receiver_chains ≡ [] → WellFormed r
no_chains-WellFormed r h = record { few = rw h (omega arith); chains = rw h tt }

module _ ⦃p : Primitives⦄ ⦃c : Codec⦄ (laws : Lawful p) (ratchet : PublicKey)
    (sized : IsKey ratchet) (s : SessionState) (w : Working)
    (meeting : Meeting ratchet s w.state) where
  abbrev inputs : Inputs ratchet w
  inputs = record {
    root = meeting.root;
    ours = meeting.ours;
    sending = meeting.current;
    root_is = meeting.root_is;
    ours_is = meeting.ours_is;
    sending_is = meeting.current_is;
  }

  stepped :
      get_or_create_chain_key ratchet w
      ≡ (ok (create_chain meeting.root ratchet meeting.ours).1, ratcheted ratchet w inputs)
  unfolding get_or_create_chain_key
  stepped = rw (unknown ratchet w.state meeting.chains, create_chain_key_lem ratchet w inputs)

  stepped-InStep : InStep ratchet 0 s (ratcheted ratchet w inputs).state
  unfolding advance local_identity_key remote_identity_key set_sender_chain set_previous_counter
      add_receiver_chain set_root_key session_version
  stepped-InStep =
      let ready =
        get_or_create_chain_key-Prepared laws ratchet sized w
          (no_chains-WellFormed w.state meeting.chains) _ _ stepped in
      record {
        key = (create_chain meeting.root ratchet meeting.ours).1;
        ready = ready.ready;
        sending = meeting.sending;
        ratchet_is = meeting.ratchet_is;
        sender = meeting.sender;
        receiver = meeting.receiver;
        local_s = meeting.local_s;
        remote_s = meeting.remote_s;
        local_r = meeting.local_r;
        remote_r = meeting.remote_r;
        version = meeting.version;
        sends = ready.sending meeting.sends;
      }

-- What `process_prekey_bundle` and `process_prekey` still write to the new sessions.
abbrev pub dressed_alice : Option ℕ → ℕ → ℕ → ℕ → PublicKey → SessionState → SessionState
dressed_alice pre_key_id signed_pre_key_id local_id remote_id base_key s =
    set_alice_base_key (PublicKey.serialize base_key) (
      set_remote_registration_id remote_id (
        set_local_registration_id local_id
          (set_unacknowledged_pre_key_message pre_key_id signed_pre_key_id base_key s)))

abbrev pub dressed_bob : ℕ → ℕ → PublicKey → SessionState → SessionState
dressed_bob local_id remote_id base_key r =
    set_alice_base_key (PublicKey.serialize base_key)
      (set_remote_registration_id remote_id (set_local_registration_id local_id r))

module _ ⦃p : Primitives⦄ ⦃c : Codec⦄ (laws : Lawful p) (a_id a_base b_id b_signed : PrivateKey)
    (b_once : Option PrivateKey) (sized : length b_signed.key ≡ 32) (g : ℕ) where
  abbrev agreed : Agreement laws a_id a_base b_id b_signed b_once g
  agreed = initialize_agree laws a_id a_base b_id b_signed b_once g

  met :
      (pre_key_id : Option ℕ) (signed_pre_key_id a_registration b_registration : ℕ)
      (base_key : PublicKey) (csprng : ℕ) (ptext : Bytes) (msg : CiphertextMessage)
      (s' : SessionState) (their : PublicKey) (m : SignalMessage)
      → encrypt_with_state ptext (
          dressed_alice pre_key_id signed_pre_key_id a_registration b_registration base_key
            agreed.alice_state)
        ≡ ok (msg, s', their)
      → carried msg ≡ some m
      → (w' : Working) × (decrypt_message_with_state m (record {
        state = dressed_bob b_registration a_registration base_key agreed.bob_state;
        csprng = csprng;
      })
          ≡ (ok ptext, w'))
        × InStep (public_key agreed.ratchet) 0 s' w'.state
  unfolding set_alice_base_key set_remote_registration_id set_local_registration_id
      set_unacknowledged_pre_key_message root_key sender_ratchet_private_key get_sender_chain_key
      sender_ratchet_key local_identity_key remote_identity_key session_version has_sender_chain
      public_key stepped-InStep create_chain
  met pre_key_id signed a_reg b_reg base_key csprng ptext msg s' their m h carries =
      let s = dressed_alice pre_key_id signed a_reg b_reg base_key agreed.alice_state in
      let w : Working = record {
        state = dressed_bob b_reg a_reg base_key agreed.bob_state;
        csprng = csprng;
      } in
      let ratchet = public_key agreed.ratchet in
      let is_key = laws.x25519_public_length agreed.ratchet.key in
      let meeting : Meeting ratchet s w.state = record {
        root = agreed.shared;
        ours = b_signed;
        current = agreed.first;
        root_is = agreed.bob_root;
        ours_is = agreed.bob_ratchet ∙ PrivateKey.deserialize-serialize b_signed sized;
        current_is = agreed.bob_sends;
        sending =
            agreed.alice_sends ∙ ap (λ (x : RootKey × ChainKey). ok x.1) (sym agreed.bob_steps);
        ratchet_is = agreed.alice_ratchet;
        sender = public_key a_id;
        receiver = public_key b_id;
        local_s = agreed.alice_local;
        remote_s = agreed.alice_remote;
        local_r = agreed.bob_local;
        remote_r = agreed.bob_remote;
        version = agreed.alice_version ∙ sym agreed.bob_version;
        sends = agreed.bob_sending;
        chains = agreed.bob_chains;
      } in
      decrypt-encrypt_with_state laws ptext ratchet 0 s w
        (ratcheted ratchet w (inputs laws ratchet is_key s w meeting))
        (stepped-InStep laws ratchet is_key s w meeting) (omega arith) (omega arith)
        (stepped laws ratchet is_key s w meeting) meeting.sends refl msg s' their m h carries

  -- Bob decrypts the first message that Alice encrypts after the key agreement, and the two are in
  -- step afterwards, for the sessions that the two sides start with from matching keys, and what is
  -- still written to them then.
  pub handshake :
      (a b : SessionState)
      → (initialize_alice_session (alice a_id a_base b_id b_signed b_once) g).0 ≡ ok a
      → initialize_bob_session (bob a_id a_base b_id b_signed b_once) ≡ ok b
      → (pre_key_id : Option ℕ) (signed_pre_key_id a_registration b_registration : ℕ)
        (base_key : PublicKey) (csprng : ℕ) (ptext : Bytes) (msg : CiphertextMessage)
        (s' : SessionState) (their : PublicKey) (m : SignalMessage)
      → encrypt_with_state ptext
          (dressed_alice pre_key_id signed_pre_key_id a_registration b_registration base_key a)
        ≡ ok (msg, s', their)
      → carried msg ≡ some m
      → (w' : Working) × (decrypt_message_with_state m (record {
        state = dressed_bob b_registration a_registration base_key b;
        csprng = csprng;
      })
          ≡ (ok ptext, w'))
        × ((ratchet : PublicKey) × InStep ratchet 0 s' w'.state)
  handshake a b made_a made_b pre_key_id signed a_reg b_reg base_key csprng ptext msg s' their m h
        carries =
      let same_a : a ≡ agreed.alice_state = ok_injective (sym made_a ∙ agreed.alice_made) in
      let same_b : agreed.bob_state ≡ b = ok_injective (sym agreed.bob_made ∙ made_b) in
      let h' =
        subst
          (λ x.
            encrypt_with_state ptext (dressed_alice pre_key_id signed a_reg b_reg base_key x)
            ≡ ok (msg, s', their))
          same_a h in
      let (w', decrypted, step) =
        met pre_key_id signed a_reg b_reg base_key csprng ptext msg s' their m h' carries in
      (
        w',
        subst
            (λ x.
              decrypt_message_with_state m
                (record { state = dressed_bob b_reg a_reg base_key x; csprng = csprng })
              ≡ (ok ptext, w'))
            same_b decrypted,
        (public_key agreed.ratchet, step),
      )
