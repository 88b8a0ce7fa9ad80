-- ===== src/SessionCipher/Keys.antt =====
-- `get_or_create_chain_key` and `get_or_create_message_key` of rust/protocol/src/session_cipher.rs.
pub mod Skip
pub mod Message
pub mod Replay
pub mod Created
pub mod Prepared
use libsignal_client.Common.{ℕ, zero, suc, ◌-◌, Option, none, some, ltb, if◌then◌else◌}
use libsignal_client.Consts.{max_forward_jumps}
use libsignal_client.Error.{Result, ok, duplicated_message, invalid_message}
use libsignal_client.Exec.{Exec, pure, raise, query, update, modify, change, ◌>>=◌, ◌>>◌}
use libsignal_client.Primitives.{Primitives}
use libsignal_client.Curve.PublicKey.{PublicKey}
use libsignal_client.Curve.KeyPair.{KeyPair, generate}
use libsignal_client.Ratchet.ChainKey.{ChainKey, message_keys, next_chain_key}
use libsignal_client.Ratchet.MessageKeys.{MessageKeys}
use libsignal_client.Ratchet.RootKey.{create_chain}
use libsignal_client.State.Session.{
  SessionState, get_receiver_chain_key, root_key, set_root_key, sender_ratchet_private_key,
  add_receiver_chain, get_sender_chain_key, set_previous_counter, set_sender_chain,
  get_message_keys, set_message_keys, set_receiver_chain_key,
}

-- A session that is being decrypted with, and the generator.
pub record Working : Type 0 where
  pub state : SessionState
  pub csprng : ℕ

module _ {A : Type 0} where
  abbrev put_state : Working → Result A × SessionState → Result A × Working
  put_state w r = (r.0, record w { state = r.1 })

  abbrev pub on_state : Exec SessionState A → Exec Working A
  on_state m w = put_state w (m w.state)

module _ ⦃p : Primitives⦄ where
  unfoldable pub draw_key_pair : Exec Working KeyPair
  draw_key_pair w =
      let (pair, csprng') = generate w.csprng in (ok pair, record w { csprng = csprng' })

  -- The case that no chain is known for the sender's ratchet key: a step of the double ratchet.
  unfoldable pub create_chain_key : PublicKey → Exec Working ChainKey
  unfolding draw_key_pair
  create_chain_key their_ephemeral = do
    root ← on_state (query root_key)
    our_ephemeral ← on_state (query sender_ratchet_private_key)
    let receiver_chain = create_chain root their_ephemeral our_ephemeral
    our_new_ephemeral ← draw_key_pair
    let sender_chain = create_chain receiver_chain.0 their_ephemeral our_new_ephemeral.private_key
    on_state (modify (set_root_key sender_chain.0))
    on_state (modify (add_receiver_chain their_ephemeral receiver_chain.1))
    current ← on_state (query get_sender_chain_key)
    let current_index = current.index
    let previous_index = if ltb 0 current_index then current_index - 1 else 0
    on_state (modify (set_previous_counter previous_index))
    on_state (modify (set_sender_chain our_new_ephemeral sender_chain.1))
    pure receiver_chain.1

  abbrev pub or_create : PublicKey → Option ChainKey → Exec Working ChainKey
  or_create their_ephemeral (some chain) = pure chain
  or_create their_ephemeral none = create_chain_key their_ephemeral

  unfoldable pub get_or_create_chain_key : PublicKey → Exec Working ChainKey
  get_or_create_chain_key their_ephemeral = do
    known ← on_state (query (get_receiver_chain_key their_ephemeral))
    or_create their_ephemeral known

  -- The loop `while chain_key.index() < counter`, on fuel; `fill_message_keys_lem` shows that
  -- `counter - index` rounds bring the index to `counter`.
  unfoldable pub fill_message_keys : ℕ → PublicKey → ℕ → ChainKey → Exec SessionState ChainKey
  fill_message_keys zero their_ephemeral counter chain_key = pure chain_key
  fill_message_keys (suc fuel) their_ephemeral counter chain_key =
      let round = (do
        change (set_message_keys their_ephemeral (message_keys chain_key))
        fill_message_keys fuel their_ephemeral counter (next_chain_key chain_key)) in
      if ltb chain_key.index counter then round else pure chain_key

  abbrev or_duplicated : ChainKey → ℕ → Option MessageKeys → Exec SessionState MessageKeys
  or_duplicated chain_key counter (some keys) = pure keys
  or_duplicated chain_key counter none = raise (duplicated_message chain_key.index counter)

  unfoldable pub get_or_create_message_key :
      PublicKey → ChainKey → ℕ → Exec SessionState MessageKeys
  get_or_create_message_key their_ephemeral chain_key counter =
      let jump = counter - chain_key.index in
      if ltb counter chain_key.index
      then (do
        keys ← update (get_message_keys their_ephemeral counter)
        or_duplicated chain_key counter keys)
      else if ltb max_forward_jumps jump
      then raise (invalid_message "message from too far into the future")
      else (do
        reached ← fill_message_keys jump their_ephemeral counter chain_key
        change (set_receiver_chain_key their_ephemeral (next_chain_key reached))
        pure (message_keys reached))
