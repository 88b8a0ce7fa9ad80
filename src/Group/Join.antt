-- ===== src/Group/Join.antt =====
-- How a receiver joins a sender's group key, and what a failing message leaves alone.
use libsignal_client.Common.{ℕ, ◌≡◌, refl, ◌∙◌, none, some, arith, length, take}
use libsignal_client.Common.Bytes.{Bytes}
use libsignal_client.Error.{SignalProtocolError, err}
use libsignal_client.Exec.Keeps.{Frame, bind_kept}
use libsignal_client.Exec.{lift}
use libsignal_client.Primitives.{Primitives, Lawful}
use libsignal_client.Curve.PublicKey
use libsignal_client.Curve.PublicKey.{PublicKey, IsKey}
use libsignal_client.Curve.PrivateKey
use libsignal_client.Curve.PrivateKey.{PrivateKey, public_key}
use libsignal_client.Protocol.Wire.{Codec}
use libsignal_client.Group.SenderKeys.{
  new_state, sender_chain_key, chain_key_as_protobuf, signing_key_public, signing_key_private,
}
use libsignal_client.Group.Record.{
  SenderKeyName, SenderKeyRecord, sender_key_state, sender_key_state_for_keyid,
  add_sender_key_state, set_sender_key_state,
}
use libsignal_client.Group.Cipher.{decrypt_with_record}
use libsignal_client.Group.Skip.{advance}
use libsignal_client.Group.Deliver.{InStep}
use libsignal_client.Group.Store.{GroupStores, load, group_decrypt}

public_key-IsKey : ⦃p : Primitives⦄ → (laws : Lawful p) (k : PrivateKey) → IsKey (public_key k)
unfolding public_key
public_key-IsKey laws k = laws.x25519_public_length k.key

-- A receiver that takes over what a sender's new state says of itself is in step with the sender,
-- whatever states it held before.
pub join :
    ⦃p : Primitives⦄
    → (laws : Lawful p) (id : ℕ) (chain_key : Bytes) (k : PrivateKey) → length k.key ≡ 32
    → (before : SenderKeyRecord) (others : SenderKeyRecord)
    → InStep 0
        (set_sender_key_state id 0 chain_key (public_key k) (some k) before)
        (add_sender_key_state id 0 chain_key (public_key k) none others)
unfolding advance set_sender_key_state add_sender_key_state take new_state sender_key_state
    sender_key_state_for_keyid sender_chain_key chain_key_as_protobuf signing_key_public
    signing_key_private
join laws id chain_key k sized before others = record {
  key = record { iteration = 0; chain_key = chain_key };
  state_s = new_state id 0 chain_key (public_key k) (some k);
  state_r = new_state id 0 chain_key (public_key k) none;
  place = 0;
  signing_key = k;
  first = refl;
  chain_s = refl;
  private_s = ground (arith, PrivateKey.deserialize-serialize k sized);
  found = ground arith;
  chain_r = refl;
  public_r = PublicKey.deserialize-serialize (public_key k) (public_key-IsKey laws k);
}

abbrev frame : Frame GroupStores
frame = record { Kept = λ s t. t ≡ s; same = λ s. refl; then_kept = λ s t u a b. b ∙ a }

-- A group message that cannot be decrypted leaves the stored sender keys as they were.
pub group_decrypt_fails :
    ⦃p : Primitives⦄
    → ⦃c : Codec⦄
    → (bytes : Bytes) (name : SenderKeyName) (s t : GroupStores) (e : SignalProtocolError)
    → group_decrypt bytes name s ≡ (err e, t)
    → t ≡ s
unfolding group_decrypt
group_decrypt_fails bytes name s t e h =
    bind_kept frame (load name) _ s (λ u. refl)
      (λ r u. bind_kept frame (lift (decrypt_with_record bytes r)) _ u (λ v. refl) (λ o v done. cc))
      h
