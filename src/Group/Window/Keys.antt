-- ===== src/Group/Window/Keys.antt =====
-- The key of each message of a sender key, from the key that it begins with, and the keys that
-- `get_sender_key` of rust/protocol/src/group_cipher.rs keeps.
use mathlib.Core.List.{append-nil, append_assoc}
use mathlib.Core.Option
use libsignal_client.Common.{
  ℕ, zero, suc, ◌+◌, ◌-◌, ◌≤◌, ◌<◌, ◌≡◌, refl, ap, some, Option, List, [], ◌∷◌, ◌++◌, map, arith,
  length, All, ==_iff, Bool-cases, Option-cases, ◌==◌, inl, inr,
}
use libsignal_client.Consts.{max_message_keys}
use libsignal_client.Primitives.{Primitives}
use libsignal_client.Proto.Storage
use libsignal_client.Ratchet.ChainKey.{u32_mod}
use libsignal_client.Group.SenderKeys.{
  SenderChainKey, SenderMessageKey, SenderKeyState, next, sender_message_key,
  message_key_as_protobuf, new_message_key, add_sender_message_key, find_iteration,
}
use libsignal_client.Group.Skip.{advance, kept, iteration-advance, next-advance}
use libsignal_client.Group.Window.{counted, newest}
use libsignal_client.Group.Window.Newest.{newest_all, newest-append, length-newest}
use libsignal_client.Window.{position}
use libsignal_client.Window.Within.{Within, Within-mono}

module _ ⦃p : Primitives⦄ where
  -- The keys of `n` messages, in the form that is kept.
  unfoldable pub made : ℕ → SenderChainKey → List Storage.SenderMessageKey
  unfolding message_key_as_protobuf
  made zero k = []
  made (suc n) k = message_key_as_protobuf (sender_message_key k) ∷ made n (next k)

  add_sender_message_key_lem :
      (k : SenderMessageKey) (s : SenderKeyState)
      → (add_sender_message_key k s).sender_message_keys
        ≡ newest max_message_keys (s.sender_message_keys ++ message_key_as_protobuf k ∷ [])
  unfolding add_sender_message_key newest
  add_sender_message_key_lem k s = refl

  pub sender_message_keys-kept :
      (n : ℕ) (k : SenderChainKey) (s : SenderKeyState)
      → length s.sender_message_keys ≤ max_message_keys
      → (kept n k s).sender_message_keys
        ≡ newest max_message_keys (s.sender_message_keys ++ made n k)
  unfolding kept made
  sender_message_keys-kept zero k s h =
      rw (append-nil s.sender_message_keys, newest_all 2000 s.sender_message_keys h)
  sender_message_keys-kept (suc n) k s h =
      let key = message_key_as_protobuf (sender_message_key k) in
      let added = add_sender_message_key_lem (sender_message_key k) s in
      let rest =
        sender_message_keys-kept n (next k) (add_sender_message_key (sender_message_key k) s)
          (rw added (length-newest 2000 (s.sender_message_keys ++ key ∷ []))) in
      rw (
        rest,
        added,
        newest-append 2000 (s.sender_message_keys ++ key ∷ []) (made n (next k)),
        append_assoc s.sender_message_keys (key ∷ []) (made n (next k)),
      )

  pub advance-advance : (i j : ℕ) (k : SenderChainKey) → advance j (advance i k) ≡ advance (i + j) k
  unfolding advance
  advance-advance zero j k = let e : 0 + j ≡ j = omega arith in rw e
  advance-advance (suc i) j k =
      let e : suc i + j ≡ suc (i + j) = omega arith in rw (e, advance-advance i j (next k))

module _ ⦃p : Primitives⦄ (origin : SenderChainKey) where
  -- The chain key that the message of the iteration is opened with.
  abbrev pub chain_key_at : ℕ → SenderChainKey
  chain_key_at t = advance (t - origin.iteration) origin

  abbrev pub keys_at : ℕ → SenderMessageKey
  keys_at t = sender_message_key (chain_key_at t)

  abbrev pub kept_at : ℕ → Storage.SenderMessageKey
  kept_at t = message_key_as_protobuf (keys_at t)

  pub iteration-chain_key_at :
      (t : ℕ) → origin.iteration ≤ t → t < u32_mod → (chain_key_at t).iteration ≡ t
  iteration-chain_key_at t h fits =
      omega (arith, iteration-advance (t - origin.iteration) origin (omega arith))

  iteration-kept_at : (t : ℕ) → origin.iteration ≤ t → t < u32_mod → (kept_at t).iteration ≡ t
  unfolding message_key_as_protobuf sender_message_key new_message_key
  iteration-kept_at t h fits = iteration-chain_key_at t h fits

  -- A kept key is turned back into the key of its message.
  pub new_message_key-kept_at :
      (t : ℕ) → new_message_key (kept_at t).iteration (kept_at t).seed ≡ keys_at t
  unfolding message_key_as_protobuf sender_message_key new_message_key
  new_message_key-kept_at t = refl

  pub advance-chain_key_at :
      (t j : ℕ) → origin.iteration ≤ t → advance j (chain_key_at t) ≡ chain_key_at (t + j)
  advance-chain_key_at t j h =
      let e : t - origin.iteration + j ≡ t + j - origin.iteration = omega arith in
      rw (advance-advance (t - origin.iteration) j origin, e)

  pub next-chain_key_at :
      (t : ℕ) → origin.iteration ≤ t → next (chain_key_at t) ≡ chain_key_at (suc t)
  next-chain_key_at t h =
      let e : suc (t - origin.iteration) ≡ suc t - origin.iteration = omega arith in
      rw (next-advance (t - origin.iteration) origin, e)

  pub made-counted :
      (j t : ℕ) → origin.iteration ≤ t → made j (chain_key_at t) ≡ map kept_at (counted t j)
  unfolding made counted
  made-counted zero t h = refl
  made-counted (suc j) t h = rw (next-chain_key_at t h, made-counted j (suc t) (omega arith))

  abbrev pub found_at : ℕ → Option ℕ → Option (Storage.SenderMessageKey × ℕ)
  found_at t place = Option.map (λ i. (kept_at t, i)) place

  -- The search of the source finds the key of the iteration where the iteration is.
  pub find_iteration-map :
      (end t : ℕ) (ks : List ℕ)
      → end < u32_mod
      → All (Within origin.iteration end) ks
      → find_iteration t (map kept_at ks) ≡ found_at t (position t ks)
  unfolding find_iteration position
  find_iteration-map end t [] fits within = refl
  find_iteration-map end t (k ∷ ks) fits within =
      let index = ap (λ i. i == t) (iteration-kept_at k within.0.0 (omega (arith, within.0.1))) in
      elim (Bool-cases (k == t)) [
        | inl same ↦ rw (index, same) (ap (λ x. some (kept_at x, 0)) ((==_iff k t).0 same))
        | inr other ↦
            rw (index, other, find_iteration-map end t ks fits within.1)
              (elim (Option-cases (position t ks)) [ inl e ↦ rw e | inr (i, e) ↦ rw e ])
      ]

  pub counted-Within :
      (n j : ℕ) → origin.iteration ≤ n → All (Within origin.iteration (n + j)) (counted n j)
  unfolding counted
  counted-Within n zero h = tt
  counted-Within n (suc j) h = (
    (h, omega arith),
    Within-mono origin.iteration (suc n + j) (n + suc j) (counted (suc n) j) (omega arith)
        (counted-Within (suc n) j (omega arith)),
  )
