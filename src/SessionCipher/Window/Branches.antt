-- ===== src/SessionCipher/Window/Branches.antt =====
-- The branches of `get_or_create_message_key` of rust/protocol/src/session_cipher.rs, each against
-- the window's.
use mathlib.Core.List.{map-append}
use libsignal_client.Common.{
  ℕ, suc, ◌+◌, ◌-◌, ◌≤◌, ◌<◌, ◌≡◌, refl, ap, ◌∙◌, subst, none, some, arith, length, length-map,
  take, ◌++◌, remove_at, map-remove_at, map-take, length-take, All-remove_at, All-take, All-append,
  length-remove_at-le,
}
use libsignal_client.Consts.{max_message_keys, max_forward_jumps}
use libsignal_client.Error.{ok, err, duplicated_message}
use libsignal_client.Primitives.{Primitives, Lawful}
use libsignal_client.Curve.PublicKey.{PublicKey}
use libsignal_client.Ratchet.ChainKey.{
  ChainKey, next_chain_key, u32_mod, message_keys-IsSized, message_keys, length-next_chain_key,
}
use libsignal_client.State.Session.{
  SessionState, store_chain_key, session_version, find_message_key,
}
use libsignal_client.State.Session.Chains.{with_chain, get_receiver_chain-with_chain}
use libsignal_client.SessionCipher.Keys.{get_or_create_message_key}
use libsignal_client.SessionCipher.Keys.Skip.{advance}
use libsignal_client.SessionCipher.Keys.Message.{
  moved, get_or_create_message_key_ahead, get_or_create_message_key_far,
  get_or_create_message_key_gone, get_or_create_message_key_kept,
}
use libsignal_client.SessionCipher.Window.{counted}
use libsignal_client.Window.{Window, Answer, opened, duplicate, too_far, position}
use libsignal_client.SessionCipher.Window.Keys.{
  next-chain_key_at, skipped-counted, chain_key_at, keys_at, kept_at, index-chain_key_at,
  counter-keys_at, advance-chain_key_at,
}
use libsignal_client.SessionCipher.Window.Kept.{counted-Within, found_at, find_message_key-map}
use libsignal_client.SessionCipher.Window.Relation.{Refines, Beside, result}
use libsignal_client.Window.Within.{Within, Within-mono, All-position}

module _ ⦃p : Primitives⦄ (sender : PublicKey) (origin : ChainKey) (laws : Lawful p) (counter : ℕ)
    (in_range : counter + 1 < u32_mod) (w : Window) (s : SessionState)
    (r : Refines sender origin w s) where
  -- The step that the answer calls for.
  abbrev pub Implemented : Answer × Window → Type 0
  Implemented step =
      (s' : SessionState) × (get_or_create_message_key sender (chain_key_at origin w.next) counter s
        ≡ (result sender origin counter w step.0, s'))
      × Refines sender origin step.1 s'
      × Beside s s'

  index : (chain_key_at origin w.next).index ≡ w.next
  index = index-chain_key_at origin w.next r.begun r.fits

  room' : length r.chain.message_keys ≤ max_message_keys
  room' = rw (r.keys, length-map (kept_at origin) w.kept) r.room

  looked_up :
      find_message_key counter r.chain.message_keys
      ≡ found_at origin counter (position counter w.kept)
  looked_up = rw r.keys (find_message_key-map origin w.next counter w.kept r.fits r.within)

  pub Implemented-gone :
      counter < w.next → position counter w.kept ≡ none → Implemented (duplicate, w)
  Implemented-gone before e =
      let gone =
        get_or_create_message_key_gone sender (chain_key_at origin w.next) counter s r.chain r.place
          r.found room' (omega arith) (omega (arith, index)) (rw (looked_up, e)) in
      (s, gone ∙ ap (λ n. (err (duplicated_message n counter), s)) index, r, refl)

  pub Implemented-kept :
      (place : ℕ)
      → counter < w.next
      → position counter w.kept ≡ some place
      → Implemented (opened, record w { kept = remove_at w.kept place })
  unfolding session_version
  Implemented-kept place before e =
      let held = All-position origin.index w.kept place r.within e in
      (
        with_chain s r.place
            (record r.chain { message_keys = remove_at r.chain.message_keys place }),
        get_or_create_message_key_kept sender (chain_key_at origin w.next) counter s r.chain r.place
            r.found room' (omega arith) (keys_at origin counter) place (omega (arith, index))
            (counter-keys_at origin counter held.0 (omega arith))
            (message_keys-IsSized laws (chain_key_at origin counter)) (rw (looked_up, e)),
        record {
          chain = record r.chain { message_keys = remove_at r.chain.message_keys place };
          place = r.place;
          found = get_receiver_chain-with_chain sender s r.chain r.place r.found _ refl;
          stored = r.stored;
          keys = rw (r.keys, map-remove_at (kept_at origin) w.kept place);
          version = r.version;
          sized = r.sized;
          begun = r.begun;
          fits = r.fits;
          within = All-remove_at (Within origin.index w.next) w.kept place r.within;
          room = omega (arith, length-remove_at-le w.kept place, r.room);
        },
        refl,
      )

  pub Implemented-far :
      w.next ≤ counter → max_forward_jumps < counter - w.next → Implemented (too_far, w)
  Implemented-far behind far = (
    s,
    get_or_create_message_key_far sender (chain_key_at origin w.next) counter s r.chain r.place
        r.found room' (omega arith) (omega (arith, index, far)),
    r,
    refl,
  )

  reached :
      w.next ≤ counter
      → advance (counter - w.next) (chain_key_at origin w.next) ≡ chain_key_at origin counter
  reached behind =
      let e : w.next + (counter - w.next) ≡ counter = omega arith in
      rw (advance-chain_key_at origin w.next (counter - w.next) r.begun, e)

  next :
      w.next ≤ counter
      → next_chain_key (advance (counter - w.next) (chain_key_at origin w.next))
        ≡ chain_key_at origin (counter + 1)
  next behind =
      let e : suc counter ≡ counter + 1 = omega arith in
      rw (reached behind, next-chain_key_at origin counter (omega (arith, r.begun)), e)

  ahead :
      (key : ChainKey)
      → key.index ≡ w.next
      → w.next ≤ counter
      → counter - w.next ≤ max_forward_jumps
      → get_or_create_message_key sender key counter s ≡ (
        ok (message_keys (advance (counter - w.next) key)),
        with_chain s r.place (moved (counter - w.next) key r.chain),
      )
  ahead key e behind near =
      let result =
        get_or_create_message_key_ahead sender key counter s r.chain r.place r.found room'
          (omega arith) (omega (arith, e)) (omega (arith, e)) in
      subst
        (λ n. get_or_create_message_key sender key counter s ≡ (
          ok (message_keys (advance (counter - n) key)),
          with_chain s r.place (moved (counter - n) key r.chain),
        ))
        e result

  abbrev pub stepped : ℕ → Window
  stepped jump = record {
    next = counter + 1;
    kept = take max_message_keys (counted w.next jump ++ w.kept);
  }

  pub Implemented-ahead :
      w.next ≤ counter
      → counter - w.next ≤ max_forward_jumps
      → Implemented (opened, stepped (counter - w.next))
  unfolding session_version
  Implemented-ahead behind near =
      let jump = counter - w.next in
      let key = chain_key_at origin w.next in
      (
        with_chain s r.place (moved jump key r.chain),
        (ahead key index behind near)
            ∙ ap (λ k. (ok (message_keys k), with_chain s r.place (moved jump key r.chain)))
                (reached behind),
        record {
          chain = moved jump key r.chain;
          place = r.place;
          found = get_receiver_chain-with_chain sender s r.chain r.place r.found _ refl;
          stored = ap (λ k. some (store_chain_key k)) (next behind);
          keys = rw (
            map-take (kept_at origin) max_message_keys (counted w.next jump ++ w.kept),
            map-append (kept_at origin) (counted w.next jump) w.kept,
            skipped-counted origin jump w.next r.begun,
            r.keys,
          );
          version = r.version;
          sized = rw (← next behind) (length-next_chain_key laws (advance jump key));
          begun = omega (arith, r.begun);
          fits = in_range;
          within =
              All-take (Within origin.index (counter + 1)) max_message_keys
                (counted w.next jump ++ w.kept)
                (All-append (Within origin.index (counter + 1)) (counted w.next jump) w.kept
                  (Within-mono origin.index (w.next + jump) (counter + 1) (counted w.next jump)
                    (omega arith) (counted-Within origin w.next jump r.begun))
                  (Within-mono origin.index w.next (counter + 1) w.kept (omega arith) r.within));
          room = omega (arith, length-take 2000 (counted w.next jump ++ w.kept));
        },
        refl,
      )
