-- ===== src/SessionCipher/Window/Keys.antt =====
-- The key of each message of a chain, from the key that the chain begins with.
use mathlib.Core.List.{map-append}
use libsignal_client.Common.{ℕ, zero, suc, ◌+◌, ◌-◌, ◌≤◌, ◌<◌, ◌≡◌, refl, [], ◌∷◌, ◌++◌, map, arith}
use libsignal_client.Primitives.{Primitives}
use libsignal_client.Proto.Storage.{MessageKey}
use libsignal_client.Ratchet.ChainKey.{
  ChainKey, message_keys, next_chain_key, u32_mod, counter-message_keys,
}
use libsignal_client.Ratchet.MessageKeys.{MessageKeys}
use libsignal_client.State.Session.{store_message_key}
use libsignal_client.SessionCipher.Keys.Skip.{advance, skipped, index-advance, next-advance}
use libsignal_client.SessionCipher.Window.{counted}

counted-front : (n j : ℕ) → counted n (suc j) ≡ counted (suc n) j ++ n ∷ []
unfolding counted
counted-front n zero = let e : n + 0 ≡ n = omega arith in rw e
counted-front n (suc j) = let e : n + suc j ≡ suc n + j = omega arith in rw (e, counted-front n j)

counted-zero : (n : ℕ) → counted n 0 ≡ []
unfolding counted
counted-zero n = refl

module _ ⦃p : Primitives⦄ where
  pub advance-advance : (i j : ℕ) (k : ChainKey) → advance j (advance i k) ≡ advance (i + j) k
  unfolding advance
  advance-advance zero j k = let e : 0 + j ≡ j = omega arith in rw e
  advance-advance (suc i) j k =
      let e : suc i + j ≡ suc (i + j) = omega arith in
      rw (e, advance-advance i j (next_chain_key k))

module _ ⦃p : Primitives⦄ (origin : ChainKey) where
  -- The chain key that the message with the counter is opened with.
  abbrev pub chain_key_at : ℕ → ChainKey
  chain_key_at t = advance (t - origin.index) origin

  abbrev pub keys_at : ℕ → MessageKeys
  keys_at t = message_keys (chain_key_at t)

  abbrev pub kept_at : ℕ → MessageKey
  kept_at t = store_message_key (keys_at t)

  pub index-chain_key_at : (t : ℕ) → origin.index ≤ t → t < u32_mod → (chain_key_at t).index ≡ t
  index-chain_key_at t h fits = omega (arith, index-advance (t - origin.index) origin (omega arith))

  pub counter-keys_at : (t : ℕ) → origin.index ≤ t → t < u32_mod → (keys_at t).counter ≡ t
  counter-keys_at t h fits =
      rw (counter-message_keys (chain_key_at t)) (index-chain_key_at t h fits)

  pub index-kept_at : (t : ℕ) → origin.index ≤ t → t < u32_mod → (kept_at t).index ≡ t
  unfolding store_message_key
  index-kept_at t h fits = counter-keys_at t h fits

  pub advance-chain_key_at :
      (t j : ℕ) → origin.index ≤ t → advance j (chain_key_at t) ≡ chain_key_at (t + j)
  advance-chain_key_at t j h =
      let e : t - origin.index + j ≡ t + j - origin.index = omega arith in
      rw (advance-advance (t - origin.index) j origin, e)

  pub next-chain_key_at :
      (t : ℕ) → origin.index ≤ t → next_chain_key (chain_key_at t) ≡ chain_key_at (suc t)
  next-chain_key_at t h =
      let e : suc (t - origin.index) ≡ suc t - origin.index = omega arith in
      rw (next-advance (t - origin.index) origin, e)

  -- The keys that are stepped over are the ones of the counters stepped over.
  pub skipped-counted :
      (j t : ℕ) → origin.index ≤ t → skipped j (chain_key_at t) ≡ map kept_at (counted t j)
  unfolding skipped
  skipped-counted zero t h = rw (counted-zero t)
  skipped-counted (suc j) t h = rw (
    next-chain_key_at t h,
    skipped-counted j (suc t) (omega arith),
    counted-front t j,
    map-append kept_at (counted (suc t) j) (t ∷ []),
  )
