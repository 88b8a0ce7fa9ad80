-- ===== src/Group/Skip.antt =====
-- The loop of `get_sender_key` of rust/protocol/src/group_cipher.rs: which keys it derives and keeps.
use libsignal_client.Common.{
  ℕ, zero, suc, ◌+◌, ◌-◌, ◌≤◌, ◌<◌, ◌≡◌, refl, none, some, remove_at, [], ◌∷◌, ◌++◌, arith, length,
  length-drop, lt→ltb, le→ltb,
}
use libsignal_client.Consts.{max_forward_jumps, max_message_keys}
use libsignal_client.Error.{ok, err, invalid_message, duplicated_message}
use libsignal_client.Primitives.{Primitives}
use libsignal_client.Ratchet.ChainKey.{u32_mod}
use libsignal_client.Group.SenderKeys.{
  SenderChainKey, SenderKeyState, next, sender_message_key, sender_chain_key, set_sender_chain_key,
  add_sender_message_key, remove_sender_message_key, find_iteration, new_message_key,
}
use libsignal_client.Proto.Storage
use libsignal_client.Group.Cipher.{fill_sender_keys, get_sender_key}

module _ ⦃p : Primitives⦄ where
  -- `n` steps of the chain.
  unfoldable pub advance : ℕ → SenderChainKey → SenderChainKey
  advance zero k = k
  advance (suc n) k = advance n (next k)

  -- The state after the keys of `n` skipped messages are kept.
  unfoldable pub kept : ℕ → SenderChainKey → SenderKeyState → SenderKeyState
  kept zero k s = s
  kept (suc n) k s = kept n (next k) (add_sender_message_key (sender_message_key k) s)

  iteration-next :
      (k : SenderChainKey) → k.iteration + 1 < u32_mod → (next k).iteration ≡ k.iteration + 1
  unfolding next
  iteration-next k h = omega arith

  pub iteration-advance :
      (n : ℕ) (k : SenderChainKey)
      → k.iteration + n < u32_mod
      → (advance n k).iteration ≡ k.iteration + n
  unfolding advance
  iteration-advance zero k h = omega arith
  iteration-advance (suc n) k h =
      let e = iteration-next k (omega arith) in
      omega (arith, e, iteration-advance n (next k) (omega (arith, e)))

  pub next-advance : (n : ℕ) (k : SenderChainKey) → next (advance n k) ≡ advance (suc n) k
  unfolding advance
  next-advance zero k = refl
  next-advance (suc n) k = next-advance n (next k)

  fill_sender_keys_lem :
      (n iteration : ℕ) (k : SenderChainKey) (s : SenderKeyState)
      → k.iteration + n ≡ iteration
      → iteration < u32_mod
      → fill_sender_keys n iteration k s ≡ (advance n k, kept n k s)
  unfolding fill_sender_keys advance kept
  fill_sender_keys_lem zero iteration k s e fits = refl
  fill_sender_keys_lem (suc n) iteration k s e fits =
      let step = iteration-next k (omega arith) in
      rw (
        lt→ltb k.iteration iteration (omega arith),
        fill_sender_keys_lem n iteration (next k) (add_sender_message_key (sender_message_key k) s)
            (omega (arith, step)) fits,
      )

  -- What keeping keys leaves alone.
  pub record SameKeys (s t : SenderKeyState) : Type 0 where
    pub id : t.sender_key_id ≡ s.sender_key_id
    pub signing : t.sender_signing_key ≡ s.sender_signing_key

  pub kept-SameKeys : (n : ℕ) (k : SenderChainKey) (s : SenderKeyState) → SameKeys s (kept n k s)
  unfolding kept add_sender_message_key
  kept-SameKeys zero k s = record { id = refl; signing = refl }
  kept-SameKeys (suc n) k s =
      let r = kept-SameKeys n (next k) (add_sender_message_key (sender_message_key k) s) in
      record { id = r.id; signing = r.signing }

  -- The limit on the keys that a state keeps.
  pub length-kept :
      (n : ℕ) (k : SenderChainKey) (s : SenderKeyState)
      → length s.sender_message_keys ≤ max_message_keys
      → length (kept n k s).sender_message_keys ≤ max_message_keys
  unfolding kept add_sender_message_key
  length-kept zero k s h = h
  length-kept (suc n) k s h =
      length-kept n (next k) (add_sender_message_key (sender_message_key k) s) (
        omega (
          arith,
          length-drop (length (s.sender_message_keys ++ _ ∷ []) - 2000)
              (s.sender_message_keys ++ _ ∷ []),
        ))

  module _ (k : SenderChainKey) (s : SenderKeyState) (is : sender_chain_key s ≡ ok k) where
    -- A message `n` steps ahead, within the limit: the key is the chain's at that step, the keys
    -- stepped over are kept, no more of them than the limit, and the chain moves past the message.
    pub get_sender_key_ahead :
        (n : ℕ)
        → n ≤ max_forward_jumps
        → k.iteration + n < u32_mod
        → (get_sender_key (k.iteration + n) s
            ≡ ok (
              sender_message_key (advance n k),
              set_sender_chain_key (next (advance n k)) (kept n k s),
            ))
          × (length s.sender_message_keys ≤ max_message_keys
              → length (kept n k s).sender_message_keys ≤ max_message_keys)
    unfolding get_sender_key
    get_sender_key_ahead n near fits =
        let jump : (k.iteration + n) - k.iteration ≡ n = omega arith in
        (
          rw (
            is,
            le→ltb (k.iteration + n) k.iteration (omega arith),
            jump,
            le→ltb 2000 n near,
            fill_sender_keys_lem n (k.iteration + n) k s refl fits,
          ),
          length-kept n k s,
        )

    -- A message further ahead is refused; one behind the chain whose key is not kept is a
    -- duplicate.
    pub get_sender_key_refused :
        (iteration : ℕ)
        → (max_forward_jumps < iteration - k.iteration
            → get_sender_key iteration s
              ≡ err (invalid_message "message from too far into the future"))
          × (iteration < k.iteration
              → find_iteration iteration s.sender_message_keys ≡ none
              → get_sender_key iteration s ≡ err (duplicated_message k.iteration iteration))
    unfolding get_sender_key remove_sender_message_key
    get_sender_key_refused iteration = (
      (λ far. rw (
        is,
        le→ltb iteration k.iteration (omega arith),
        lt→ltb 2000 (iteration - k.iteration) far,
      )),
      λ late gone. rw (is, lt→ltb iteration k.iteration late, gone, remove_sender_message_key),
    )

    -- A message behind the chain whose key is kept is given that key, which is kept no longer.
    pub get_sender_key_kept :
        (iteration : ℕ) {m : Storage.SenderMessageKey} {place : ℕ}
        → iteration < k.iteration
        → find_iteration iteration s.sender_message_keys ≡ some (m, place)
        → get_sender_key iteration s
          ≡ ok (
            new_message_key m.iteration m.seed,
            record s { sender_message_keys = remove_at s.sender_message_keys place },
          )
    unfolding get_sender_key remove_sender_message_key
    get_sender_key_kept iteration late f =
        rw (is, lt→ltb iteration k.iteration late, f, remove_sender_message_key)
