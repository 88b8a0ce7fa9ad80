-- ===== src/Group/Cipher.antt =====
-- The parts of rust/protocol/src/group_cipher.rs that work on a record.
use libsignal_client.Common.{ℕ, zero, suc, ◌-◌, Option, none, some, set, ltb, if◌then◌else◌}
use libsignal_client.Common.Bytes.{Bytes}
use libsignal_client.Consts.{max_forward_jumps}
use libsignal_client.Error.{
  Result, ok, err, ◌>>=◌, ◌>>◌, ok_or, require, duplicated_message, invalid_message,
  sender_key_signing_key_missing, signature_validation_failed,
}
use libsignal_client.Primitives.{Primitives}
use libsignal_client.Crypto.{aes_256_cbc_encrypt, aes_256_cbc_decrypt}
use libsignal_client.Curve.PrivateKey.{PrivateKey}
use libsignal_client.Protocol.Wire.{Codec}
use libsignal_client.Protocol.SenderKeyMessage
use libsignal_client.Protocol.SenderKeyMessage.{SenderKeyMessage, message_verify_signature}
use libsignal_client.Group.SenderKeys.{
  SenderChainKey, SenderMessageKey, SenderKeyState, next, sender_message_key, sender_chain_key,
  set_sender_chain_key, signing_key_public, signing_key_private, add_sender_message_key,
  remove_sender_message_key,
}
use libsignal_client.Group.Record.{SenderKeyRecord, sender_key_state, sender_key_state_for_keyid}

module _ ⦃p : Primitives⦄ where
  -- The loop `while sender_chain_key.iteration()? < iteration`, on fuel: `iteration - k.iteration`
  -- rounds bring the key to `iteration`.
  unfoldable pub fill_sender_keys :
      ℕ → ℕ → SenderChainKey → SenderKeyState → SenderChainKey × SenderKeyState
  fill_sender_keys zero iteration k s = (k, s)
  fill_sender_keys (suc fuel) iteration k s =
      let rest =
        fill_sender_keys fuel iteration (next k)
          (add_sender_message_key (sender_message_key k) s) in
      if ltb k.iteration iteration then rest else (k, s)

  abbrev or_duplicated :
      ℕ → ℕ → Option SenderMessageKey × SenderKeyState → Result (SenderMessageKey × SenderKeyState)
  or_duplicated current iteration (none, s) = err (duplicated_message current iteration)
  or_duplicated current iteration (some k, s) = ok (k, s)

  abbrev finish : SenderChainKey × SenderKeyState → SenderMessageKey × SenderKeyState
  finish (k, s) = (sender_message_key k, set_sender_chain_key (next k) s)

  -- The errors come before anything is written.
  unfoldable pub get_sender_key : ℕ → SenderKeyState → Result (SenderMessageKey × SenderKeyState)
  unfolding fill_sender_keys
  get_sender_key iteration s = do
    k ← sender_chain_key s
    let jump = iteration - k.iteration
    if ltb iteration k.iteration
        then or_duplicated k.iteration iteration (remove_sender_message_key iteration s)
        else if ltb max_forward_jumps jump
        then err (invalid_message "message from too far into the future")
        else ok (finish (fill_sender_keys jump iteration k s))

  -- `group_decrypt` between the load and the store.
  unfoldable pub decrypt_with_record :
      ⦃c : Codec⦄ → Bytes → SenderKeyRecord → Result (Bytes × SenderKeyRecord)
  unfolding get_sender_key
  decrypt_with_record skm_bytes r = do
    skm ← SenderKeyMessage.try_from skm_bytes
    (state, place) ← sender_key_state_for_keyid skm.key_id r
    signing_key ← signing_key_public state
    valid ← message_verify_signature skm signing_key
    require valid signature_validation_failed
    (sender_key, state') ← get_sender_key skm.iteration state
    plaintext ← aes_256_cbc_decrypt skm.ciphertext sender_key.cipher_key sender_key.iv
    ok (plaintext, set r place state')

  -- What `group_encrypt` reads of a record before it draws anything: the state, the key of the
  -- message, its ciphertext and the signing key.
  unfoldable pub encrypt_parts :
      Bytes → SenderKeyRecord → Result (SenderKeyState × SenderChainKey × Bytes × PrivateKey)
  encrypt_parts plaintext r = do
    state ← sender_key_state r
    k ← sender_chain_key state
    let sender_key = sender_message_key k
    ciphertext ← aes_256_cbc_encrypt plaintext sender_key.cipher_key sender_key.iv
    private ← signing_key_private state
    signing_key ← ok_or private sender_key_signing_key_missing
    ok (state, k, ciphertext, signing_key)

  abbrev pub sealed :
      ⦃c : Codec⦄
      → SenderKeyRecord
      → ℕ
      → Result (SenderKeyState × SenderChainKey × Bytes × PrivateKey)
      → Result (Bytes × SenderKeyRecord) × ℕ
  sealed r csprng (err e) = (err e, csprng)
  sealed r csprng (ok (state, k, ciphertext, signing_key)) =
      let (skm, csprng') =
        SenderKeyMessage.new state.sender_key_id k.iteration ciphertext csprng signing_key in
      (ok (skm.serialized, set r 0 (set_sender_chain_key (next k) state)), csprng')

  -- `group_encrypt` between the load and the store, with the generator after the signature.
  unfoldable pub encrypt_with_record :
      ⦃c : Codec⦄ → Bytes → ℕ → SenderKeyRecord → Result (Bytes × SenderKeyRecord) × ℕ
  unfolding encrypt_parts
  encrypt_with_record plaintext csprng r = sealed r csprng (encrypt_parts plaintext r)
