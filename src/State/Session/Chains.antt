-- ===== src/State/Session/Chains.antt =====
-- The receiver chains of a session, as the operations see them.
use libsignal_client.Common.{ℕ, zero, suc, ◌≡◌, refl, some, List, [], ◌∷◌, arith, set, set-set}
use libsignal_client.Error.{ok}
use libsignal_client.Curve.PublicKey.{PublicKey}
use libsignal_client.Proto.Storage.{Chain}
use libsignal_client.Ratchet.ChainKey.{ChainKey}
use libsignal_client.Ratchet.MessageKeys.{MessageKeys}
use libsignal_client.State.Session.{
  SessionState, find_chain, get_receiver_chain, set_message_keys, set_receiver_chain_key,
  store_message_key, insert_message_key, store_chain_key, get_message_keys, take_message_key,
}

-- Writing to the chain that was found leaves it the one that is found.
find_chain-set :
    (sender : PublicKey) (chains : List Chain) (c c' : Chain) (i : ℕ)
    → find_chain sender chains ≡ ok (some (c, i))
    → c'.sender_ratchet_key ≡ c.sender_ratchet_key
    → find_chain sender (set chains i c') ≡ ok (some (c', i))
unfolding find_chain set
find_chain-set sender [] c c' i h e = cc
find_chain-set sender (x ∷ xs) c c' zero h e = ground arith
find_chain-set sender (x ∷ xs) c c' (suc i) h e = ground (arith, find_chain-set sender xs c c' i)

abbrev pub with_chain : SessionState → ℕ → Chain → SessionState
with_chain s i c = record s { receiver_chains = set s.receiver_chains i c }

module _ (sender : PublicKey) (s : SessionState) (c : Chain) (i : ℕ)
    (found : get_receiver_chain sender s ≡ ok (some (c, i))) where
  pub get_receiver_chain-with_chain :
      (c' : Chain)
      → c'.sender_ratchet_key ≡ c.sender_ratchet_key
      → get_receiver_chain sender (with_chain s i c') ≡ ok (some (c', i))
  unfolding get_receiver_chain
  get_receiver_chain-with_chain c' e = find_chain-set sender s.receiver_chains c c' i found e

  pub set_message_keys_lem :
      (k : MessageKeys)
      → set_message_keys sender k s
        ≡ ok (
            with_chain s i
              (record c { message_keys = insert_message_key (store_message_key k) c.message_keys }))
  unfolding set_message_keys
  set_message_keys_lem k = rw (found, set_message_keys)

  pub set_receiver_chain_key_lem :
      (k : ChainKey)
      → set_receiver_chain_key sender k s
        ≡ ok (with_chain s i (record c { chain_key = some (store_chain_key k) }))
  unfolding set_receiver_chain_key
  set_receiver_chain_key_lem k = rw (found, set_receiver_chain_key)

  pub get_message_keys_lem :
      (counter : ℕ) → get_message_keys sender counter s ≡ take_message_key counter s c i
  unfolding get_message_keys
  get_message_keys_lem counter = rw (found, get_message_keys)

pub with_chain-with_chain :
    (s : SessionState) (i : ℕ) (c c' : Chain)
    → with_chain (with_chain s i c) i c' ≡ with_chain s i c'
with_chain-with_chain s i c c' = rw (set-set s.receiver_chains i c c')

find_chain-set_self :
    (sender : PublicKey) (chains : List Chain) (c : Chain) (i : ℕ)
    → find_chain sender chains ≡ ok (some (c, i))
    → set chains i c ≡ chains
unfolding find_chain set
find_chain-set_self sender [] c i h = refl
find_chain-set_self sender (x ∷ xs) c zero h = ground arith
find_chain-set_self sender (x ∷ xs) c (suc i) h = ground (arith, find_chain-set_self sender xs c i)

pub with_chain_self :
    (sender : PublicKey) (s : SessionState) (c : Chain) (i : ℕ)
    → get_receiver_chain sender s ≡ ok (some (c, i))
    → with_chain s i c ≡ s
unfolding get_receiver_chain
with_chain_self sender s c i h = rw (find_chain-set_self sender s.receiver_chains c i h)
