-- ===== src/SessionCipher/Window.antt =====
-- What a receiving chain of rust/protocol/src/session_cipher.rs promises, without its keys: which
-- messages it opens, which it refuses, and which it can still open later.
pub mod Keys
pub mod Kept
pub mod Relation
pub mod Branches
pub mod Refined
pub mod Opens
use mathlib.Core.Option
use libsignal_client.Common.{
  ℕ, zero, suc, ◌+◌, ◌-◌, Option, none, some, List, [], ◌∷◌, ◌++◌, take, remove_at, ltb, ◌==◌,
  if◌then◌else◌,
}
use libsignal_client.Window.{Window, Answer, opened, too_far, position, late}
use libsignal_client.Consts.{max_forward_jumps, max_message_keys}

-- `n + j - 1` down to `n`
unfoldable pub counted : ℕ → ℕ → List ℕ
counted n zero = []
counted n (suc j) = (n + j) ∷ counted n j

-- The kept counters are newest first.
unfoldable pub receive : ℕ → Window → Answer × Window
receive counter w =
    if ltb counter w.next
    then late w (position counter w.kept)
    else if ltb max_forward_jumps (counter - w.next)
    then (too_far, w)
    else (
      opened,
      record {
        next = counter + 1;
        kept = take max_message_keys (counted w.next (counter - w.next) ++ w.kept);
      },
    )
