-- ===== src/SessionCipher/Keys/Skip.antt =====
-- The loop of `get_or_create_message_key`: which keys it derives, and what it stores.
use mathlib.Core.List.{append_assoc}
use libsignal_client.Common.{
  ℕ, zero, suc, ◌+◌, ◌≤◌, ◌<◌, ◌≡◌, refl, some, List, [], ◌∷◌, ◌++◌, arith, length, take,
  length-take, take_all, drop_last-take, take-append-take, lt→ltb,
}
use libsignal_client.Consts.{max_message_keys}
use libsignal_client.Error.{ok}
use libsignal_client.Primitives.{Primitives}
use libsignal_client.Curve.PublicKey.{PublicKey}
use libsignal_client.Proto.Storage.{Chain, MessageKey}
use libsignal_client.Ratchet.ChainKey.{
  ChainKey, message_keys, next_chain_key, u32_mod, index-next_chain_key,
}
use libsignal_client.State.Session.{
  SessionState, get_receiver_chain, insert_message_key, store_message_key,
}
use libsignal_client.State.Session.Chains.{
  with_chain, with_chain-with_chain, get_receiver_chain-with_chain, set_message_keys_lem,
}
use libsignal_client.SessionCipher.Keys.{fill_message_keys}

-- Storing a key under the limit keeps the newest keys.
pub insert_message_key-take :
    (k : MessageKey) (ks : List MessageKey)
    → length ks ≤ max_message_keys
    → insert_message_key k ks ≡ take max_message_keys (k ∷ ks)
unfolding insert_message_key
insert_message_key-take k ks h =
    ground (arith, drop_last-take (k ∷ ks) 2000, take_all (k ∷ ks) 2000)

module _ ⦃p : Primitives⦄ where
  -- `n` steps of the chain.
  unfoldable pub advance : ℕ → ChainKey → ChainKey
  advance zero c = c
  advance (suc n) c = advance n (next_chain_key c)

  -- The message keys of the next `n` messages, newest first.
  unfoldable pub skipped : ℕ → ChainKey → List MessageKey
  skipped zero c = []
  skipped (suc n) c = skipped n (next_chain_key c) ++ store_message_key (message_keys c) ∷ []

  pub index-advance :
      (n : ℕ) (c : ChainKey) → c.index + n < u32_mod → (advance n c).index ≡ c.index + n
  unfolding advance
  index-advance zero c h = omega arith
  index-advance (suc n) c h =
      let e = index-next_chain_key c (omega arith) in
      omega (arith, e, index-advance n (next_chain_key c) (omega (arith, e)))

  pub kdf-advance : (n : ℕ) (c : ChainKey) → (advance n c).kdf ≡ c.kdf
  unfolding advance next_chain_key
  kdf-advance zero c = refl
  kdf-advance (suc n) c = kdf-advance n (next_chain_key c)

  pub next-advance : (n : ℕ) (c : ChainKey) → next_chain_key (advance n c) ≡ advance (suc n) c
  unfolding advance
  next-advance zero c = refl
  next-advance (suc n) c = next-advance n (next_chain_key c)

  module _ (sender : PublicKey) (counter : ℕ) (s : SessionState) (i : ℕ) where
    abbrev pub Holds : Chain → Type 0
    Holds c = get_receiver_chain sender (with_chain s i c) ≡ ok (some (c, i))

    abbrev pub keep_skipped : ℕ → ChainKey → Chain → Chain
    keep_skipped n k c = record c {
      message_keys = take max_message_keys (skipped n k ++ c.message_keys);
    }

    keep_one :
        (n : ℕ) (k : ChainKey) (c : Chain)
        → keep_skipped n (next_chain_key k) (record c {
          message_keys =
              take max_message_keys (store_message_key (message_keys k) ∷ c.message_keys);
        })
          ≡ keep_skipped (suc n) k c
    unfolding skipped
    keep_one n k c =
        let rest = store_message_key (message_keys k) ∷ c.message_keys in
        rw (
          take-append-take 2000 2000 (skipped n (next_chain_key k)) rest (omega arith),
          append_assoc (skipped n (next_chain_key k)) (store_message_key (message_keys k) ∷ [])
              c.message_keys,
        )

    pub fill_message_keys_lem :
        (n : ℕ) (k : ChainKey) (c : Chain)
        → Holds c
        → length c.message_keys ≤ max_message_keys
        → k.index + n ≡ counter
        → counter < u32_mod
        → fill_message_keys n sender counter k (with_chain s i c)
          ≡ (ok (advance n k), with_chain s i (keep_skipped n k c))
    unfolding fill_message_keys advance skipped
    fill_message_keys_lem zero k c held room e lt = rw (take_all c.message_keys 2000 room)
    fill_message_keys_lem (suc n) k c held room e lt =
        let c' : Chain = record c {
          message_keys =
              take max_message_keys (store_message_key (message_keys k) ∷ c.message_keys);
        } in
        let step = index-next_chain_key k (omega arith) in
        let stored = set_message_keys_lem sender (with_chain s i c) c i held (message_keys k) in
        let kept =
          insert_message_key-take (store_message_key (message_keys k)) c.message_keys room in
        let held' : Holds c' =
          rw (← with_chain-with_chain s i c c')
            (get_receiver_chain-with_chain sender (with_chain s i c) c i held c' refl) in
        rw (
          lt→ltb k.index counter (omega arith),
          stored,
          kept,
          with_chain-with_chain s i c c',
          fill_message_keys_lem n (next_chain_key k) c' held'
              (omega
                (arith, length-take 2000 (store_message_key (message_keys k) ∷ c.message_keys)))
              (omega (arith, step)) lt,
          keep_one n k c,
        )
