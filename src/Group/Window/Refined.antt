-- ===== src/Group/Window/Refined.antt =====
-- `get_sender_key` of rust/protocol/src/group_cipher.rs implements the window.
use mathlib.Core.List.{map-append}
use libsignal_client.Common.{
  ℕ, suc, ◌+◌, ◌-◌, ◌≤◌, ◌<◌, ◌≡◌, refl, ap, ◌∙◌, subst, none, some, ◌++◌, map, arith, length,
  length-map, remove_at, map-remove_at, length-remove_at-le, All, All-append, All-remove_at,
  Bool-cases, Option-cases, inl, inr, ltb, ltb→lt, ltb→le,
}
use libsignal_client.Consts.{max_forward_jumps, max_message_keys}
use libsignal_client.Error.{ok, err, duplicated_message, invalid_message}
use libsignal_client.Primitives.{Primitives}
use libsignal_client.Ratchet.ChainKey.{u32_mod}
use libsignal_client.Group.Cipher.{get_sender_key}
use libsignal_client.Group.SenderKeys.{
  SenderChainKey, SenderKeyState, next, sender_message_key, sender_chain_key, set_sender_chain_key,
  chain_key_as_protobuf, find_iteration,
}
use libsignal_client.Group.Skip.{
  advance, kept, SameKeys, kept-SameKeys, get_sender_key_ahead, get_sender_key_refused,
  get_sender_key_kept,
}
use libsignal_client.Group.Window.{counted, newest, receive}
use libsignal_client.Group.Window.Keys.{
  chain_key_at, keys_at, kept_at, found_at, sender_message_keys-kept, iteration-chain_key_at,
  new_message_key-kept_at, advance-chain_key_at, next-chain_key_at, made-counted,
  find_iteration-map, counted-Within,
}
use libsignal_client.Group.Window.Newest.{length-newest, map-newest, All-newest}
use libsignal_client.Window.{Window, Answer, opened, duplicate, too_far, position, late}
use libsignal_client.Window.Within.{Within, Within-mono}

-- The chain key that is written is the one that is read.
sender_chain_key-set_sender_chain_key :
    (k : SenderChainKey) (s : SenderKeyState) → sender_chain_key (set_sender_chain_key k s) ≡ ok k
unfolding sender_chain_key set_sender_chain_key chain_key_as_protobuf
sender_chain_key-set_sender_chain_key k s = refl

module _ ⦃p : Primitives⦄ (origin : SenderChainKey) where
  -- A state whose chain, begun with the key `origin`, is the one of the window: its chain key is
  -- the one of the next message, and the kept keys are those of the kept counters.
  pub record Refines (w : Window) (s : SenderKeyState) : Type 0 where
    pub chain : sender_chain_key s ≡ ok (chain_key_at origin w.next)
    pub keys : s.sender_message_keys ≡ map (kept_at origin) w.kept
    pub begun : origin.iteration ≤ w.next
    pub fits : w.next < u32_mod
    pub within : All (Within origin.iteration w.next) w.kept
    pub room : length w.kept ≤ max_message_keys

  -- What the code does for each answer: it gives the key of the iteration with a state that has the
  -- new window and the same identifier and signing key, or an error, and then the window stays.
  abbrev pub Implemented : ℕ → Window → SenderKeyState → Answer × Window → Type 0
  Implemented t w s (opened, w') =
      (s' : SenderKeyState) × (get_sender_key t s ≡ ok (keys_at origin t, s'))
      × Refines w' s'
      × SameKeys s s'
  Implemented t w s (duplicate, w') =
      (get_sender_key t s ≡ err (duplicated_message w.next t)) × (w' ≡ w)
  Implemented t w s (too_far, w') =
      (get_sender_key t s ≡ err (invalid_message "message from too far into the future")) × (w' ≡ w)

  module _ (t : ℕ) (in_range : t + 1 < u32_mod) (w : Window) (s : SenderKeyState)
      (r : Refines w s) where
    iteration : (chain_key_at origin w.next).iteration ≡ w.next
    iteration = iteration-chain_key_at origin w.next r.begun r.fits

    room' : length s.sender_message_keys ≤ max_message_keys
    room' = rw (r.keys, length-map (kept_at origin) w.kept) r.room

    looked_up : find_iteration t s.sender_message_keys ≡ found_at origin t (position t w.kept)
    looked_up = rw r.keys (find_iteration-map origin w.next t w.kept r.fits r.within)

    Implemented-gone : t < w.next → position t w.kept ≡ none → Implemented t w s (duplicate, w)
    Implemented-gone before e =
        let refused = get_sender_key_refused (chain_key_at origin w.next) s r.chain t in
        (
          refused.1 (omega (arith, iteration)) (rw (looked_up, e))
              ∙ ap (λ n. err (duplicated_message n t)) iteration,
          refl,
        )

    Implemented-far : max_forward_jumps < t - w.next → Implemented t w s (too_far, w)
    Implemented-far far =
        let refused = get_sender_key_refused (chain_key_at origin w.next) s r.chain t in
        (refused.0 (omega (arith, iteration, far)), refl)

    reached : w.next ≤ t → advance (t - w.next) (chain_key_at origin w.next) ≡ chain_key_at origin t
    reached behind =
        let e : w.next + (t - w.next) ≡ t = omega arith in
        rw (advance-chain_key_at origin w.next (t - w.next) r.begun, e)

    after :
        w.next ≤ t
        → next (advance (t - w.next) (chain_key_at origin w.next)) ≡ chain_key_at origin (t + 1)
    after behind =
        let e : suc t ≡ t + 1 = omega arith in
        rw (reached behind, next-chain_key_at origin t (omega (arith, r.begun)), e)

    Implemented-kept :
        (place : ℕ)
        → t < w.next
        → position t w.kept ≡ some place
        → Implemented t w s (opened, record w { kept = remove_at w.kept place })
    unfolding sender_chain_key
    Implemented-kept place before e =
        let got =
          get_sender_key_kept (chain_key_at origin w.next) s r.chain t {m = kept_at origin t}
            {place = place} (omega (arith, iteration)) (rw (looked_up, e)) in
        (
          record s { sender_message_keys = remove_at s.sender_message_keys place },
          rw (new_message_key-kept_at origin t) at got,
          record {
            chain = r.chain;
            keys = rw (r.keys, map-remove_at (kept_at origin) w.kept place);
            begun = r.begun;
            fits = r.fits;
            within = All-remove_at (Within origin.iteration w.next) w.kept place r.within;
            room = omega (arith, length-remove_at-le w.kept place, r.room);
          },
          record { id = refl; signing = refl },
        )

    Implemented-ahead :
        w.next ≤ t
        → t - w.next ≤ max_forward_jumps
        → Implemented t w s (
          opened,
          record {
            next = t + 1;
            kept = newest max_message_keys (w.kept ++ counted w.next (t - w.next));
          },
        )
    unfolding set_sender_chain_key
    Implemented-ahead behind near =
        let jump = t - w.next in
        let k = chain_key_at origin w.next in
        let got =
          (get_sender_key_ahead k s r.chain jump near (omega (arith, iteration, behind))).0 in
        let at : k.iteration + jump ≡ t = omega (arith, iteration) in
        let same = kept-SameKeys jump k s in
        let s' = set_sender_chain_key (next (advance jump k)) (kept jump k s) in
        let all = w.kept ++ counted w.next jump in
        (
          s',
          subst (λ i. get_sender_key i s ≡ ok (sender_message_key (advance jump k), s')) at got
              ∙ ap (λ key. ok (sender_message_key key, s')) (reached behind),
          record {
            chain =
                sender_chain_key-set_sender_chain_key (next (advance jump k)) (kept jump k s)
                ∙ ap ok (after behind);
            keys = rw (
              sender_message_keys-kept jump k s room',
              r.keys,
              made-counted origin jump w.next r.begun,
              map-newest (kept_at origin) max_message_keys all,
              map-append (kept_at origin) w.kept (counted w.next jump),
            );
            begun = omega (arith, r.begun);
            fits = in_range;
            within = All-newest (Within origin.iteration (t + 1)) max_message_keys all (
                All-append (Within origin.iteration (t + 1)) w.kept (counted w.next jump)
                  (Within-mono origin.iteration w.next (t + 1) w.kept (omega arith) r.within)
                  (Within-mono origin.iteration (w.next + jump) (t + 1) (counted w.next jump)
                    (omega arith) (counted-Within origin w.next jump r.begun)));
            room = length-newest max_message_keys all;
          },
          record { id = same.id; signing = same.signing },
        )

  -- For a state at a window of the chain, and any iteration whose successor does not wrap, the code
  -- does what the window answers: it gives the key of the iteration, with a state at the window's new
  -- state and with the same identifier and signing key, or it returns the error of the answer.
  pub get_sender_key-receive :
      (t : ℕ)
      → t + 1 < u32_mod
      → (w : Window) (s : SenderKeyState) → Refines w s
      → Implemented t w s (receive t w)
  unfolding receive late
  get_sender_key-receive t in_range w s r = elim (Bool-cases (ltb t w.next)) [
    | inl before ↦ elim (Option-cases (position t w.kept)) [
      | inl e ↦ rw (before, e) (Implemented-gone t in_range w s r (ltb→lt t w.next before) e)
      | inr (i, e) ↦ rw (before, e) (Implemented-kept t in_range w s r i (ltb→lt t w.next before) e)
    ]
    | inr behind ↦ elim (Bool-cases (ltb max_forward_jumps (t - w.next))) [
      | inl far ↦ rw (behind, far) (Implemented-far t in_range w s r (ltb→lt 2000 (t - w.next) far))
      | inr near ↦
          rw (behind, near)
            (Implemented-ahead t in_range w s r (ltb→le t w.next behind)
              (ltb→le 2000 (t - w.next) near))
    ]
  ]
