-- ===== src/SessionCipher/Keys/Message.antt =====
-- What `get_or_create_message_key` returns and stores, and that it gives out no key twice.
use libsignal_client.Common.{
  ℕ, ◌-◌, ◌≤◌, ◌<◌, ◌≡◌, refl, subst, inl, inr, none, some, ◌++◌, arith, length, take, remove_at,
  lt→ltb, le→ltb, Option-cases,
}
use libsignal_client.Consts.{max_message_keys, max_forward_jumps}
use libsignal_client.Error.{ok, err, duplicated_message, invalid_message}
use libsignal_client.Primitives.{Primitives}
use libsignal_client.Curve.PublicKey.{PublicKey}
use libsignal_client.Proto.Storage.{Chain, MessageKey}
use libsignal_client.Ratchet.ChainKey.{ChainKey, message_keys, next_chain_key, u32_mod}
use libsignal_client.Ratchet.MessageKeys
use libsignal_client.Ratchet.MessageKeys.{MessageKeys, IsSized, new_sized}
use libsignal_client.State.Session.{
  SessionState, get_receiver_chain, store_chain_key, find_message_key, take_message_key,
  store_message_key,
}
use libsignal_client.State.Session.Chains.{
  with_chain, with_chain-with_chain, with_chain_self, get_receiver_chain-with_chain,
  set_receiver_chain_key_lem, get_message_keys_lem,
}
use libsignal_client.SessionCipher.Keys.{get_or_create_message_key}
use libsignal_client.SessionCipher.Keys.Skip.{advance, skipped, fill_message_keys_lem}

module _ ⦃p : Primitives⦄ where
  -- The chain after the keys up to `counter` have been derived, `jump` of them skipped.
  abbrev pub moved : ℕ → ChainKey → Chain → Chain
  moved jump k c = record c {
    chain_key = some (store_chain_key (next_chain_key (advance jump k)));
    message_keys = take max_message_keys (skipped jump k ++ c.message_keys);
  }

module _ ⦃p : Primitives⦄ (sender : PublicKey) (k : ChainKey) (counter : ℕ) (s : SessionState)
    (c : Chain) (i : ℕ) (found : get_receiver_chain sender s ≡ ok (some (c, i)))
    (room : length c.message_keys ≤ max_message_keys) (fits : counter < u32_mod) where
  -- A message at or ahead of the chain, by no more than the limit, whose counter is a `u32`, where the
  -- chain keeps no more keys than its limit: the key is the chain's,
  -- `counter - index` steps on; those stepped over are kept, newest first and under the limit;
  -- and the chain moves past the message.
  pub get_or_create_message_key_ahead :
      k.index ≤ counter
      → counter - k.index ≤ max_forward_jumps
      → get_or_create_message_key sender k counter s ≡ (
        ok (message_keys (advance (counter - k.index) k)),
        with_chain s i (moved (counter - k.index) k c),
      )
  unfolding get_or_create_message_key
  get_or_create_message_key_ahead behind near =
      let same = with_chain_self sender s c i found in
      let held = get_receiver_chain-with_chain sender s c i found in
      let jump = counter - k.index in
      let kept : Chain = record c {
        message_keys = take max_message_keys (skipped jump k ++ c.message_keys);
      } in
      let filled =
        fill_message_keys_lem sender counter s i jump k c (held c refl) room (omega arith) fits in
      let written =
        set_receiver_chain_key_lem sender (with_chain s i kept) kept i (held kept refl)
          (next_chain_key (advance jump k)) in
      let result : get_or_create_message_key sender k counter (with_chain s i c)
          ≡ (ok (message_keys (advance jump k)), with_chain s i (moved jump k c)) =
        rw (
          le→ltb counter k.index behind,
          le→ltb 2000 jump near,
          filled,
          written,
          with_chain-with_chain s i kept (moved jump k c),
        ) in
      rw same at result

  -- A message too far ahead is refused, and nothing is derived or stored.
  pub get_or_create_message_key_far :
      max_forward_jumps < counter - k.index
      → get_or_create_message_key sender k counter s
        ≡ (err (invalid_message "message from too far into the future"), s)
  unfolding get_or_create_message_key
  get_or_create_message_key_far far =
      rw (le→ltb counter k.index (omega arith), lt→ltb 2000 (counter - k.index) far)

  abbrev without : ℕ → Chain
  without pos = record c { message_keys = remove_at c.message_keys pos }

  -- A late message whose key was not kept is a duplicate; a kept key is removed as it is returned.
  pub get_or_create_message_key_late :
      {keys : MessageKeys} {s' : SessionState}
      → counter < k.index
      → get_or_create_message_key sender k counter s ≡ (ok keys, s')
      → (m : MessageKey) × (pos : ℕ) × (find_message_key counter c.message_keys ≡ some (m, pos))
        × (s' ≡ with_chain s i (without pos))
  unfolding get_or_create_message_key take_message_key
  get_or_create_message_key_late late h =
      let e = get_message_keys_lem sender s c i found counter in
      let h' = rw (lt→ltb counter k.index late, e) at h in
      elim (Option-cases (find_message_key counter c.message_keys)) [
        | inl n ↦ absurd (ground arith)
        | inr ((m, pos), f) ↦ (m, pos, f, ground arith)
      ]

  pub get_or_create_message_key_gone :
      counter < k.index
      → find_message_key counter c.message_keys ≡ none
      → get_or_create_message_key sender k counter s ≡ (err (duplicated_message k.index counter), s)
  unfolding get_or_create_message_key take_message_key
  get_or_create_message_key_gone late gone = rw (
    lt→ltb counter k.index late,
    get_message_keys_lem sender s c i found counter,
    take_message_key,
    gone,
    take_message_key,
  )

  -- A late message whose key was kept is given that key.
  pub get_or_create_message_key_kept :
      (m : MessageKeys) (pos : ℕ)
      → counter < k.index
      → m.counter ≡ counter
      → IsSized m
      → find_message_key counter c.message_keys ≡ some (store_message_key m, pos)
      → get_or_create_message_key sender k counter s ≡ (ok m, with_chain s i (without pos))
  unfolding get_or_create_message_key take_message_key store_message_key
  get_or_create_message_key_kept m pos late is_counter sized f =
      let made =
        subst (λ t. MessageKeys.new m.cipher_key m.mac_key m.iv t ≡ ok m) is_counter
          (new_sized m sized) in
      rw (
        lt→ltb counter k.index late,
        get_message_keys_lem sender s c i found counter,
        take_message_key,
        f,
        made,
      )
