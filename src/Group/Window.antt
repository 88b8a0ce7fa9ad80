-- ===== src/Group/Window.antt =====
-- What a sender key of rust/protocol/src/group_cipher.rs promises, without its keys. The kept
-- counters are oldest first.
pub mod Newest
pub mod Keys
pub mod Refined
use libsignal_client.Common.{
  ℕ, zero, suc, ◌+◌, ◌-◌, List, [], ◌∷◌, ◌++◌, length, drop, ltb, if◌then◌else◌,
}
use libsignal_client.Consts.{max_forward_jumps, max_message_keys}
use libsignal_client.Window.{Window, Answer, opened, too_far, position, late}

-- `n` up to `n + j - 1`
unfoldable pub counted : ℕ → ℕ → List ℕ
counted n zero = []
counted n (suc j) = n ∷ counted (suc n) j

-- The last `m` elements.
unfoldable pub newest {ℓ} : {A : Type ℓ} → ℕ → List A → List A
newest m l = drop (length l - m) l

unfoldable pub receive : ℕ → Window → Answer × Window
unfolding newest
receive iteration w =
    if ltb iteration w.next
    then late w (position iteration w.kept)
    else if ltb max_forward_jumps (iteration - w.next)
    then (too_far, w)
    else (
      opened,
      record {
        next = iteration + 1;
        kept = newest max_message_keys (w.kept ++ counted w.next (iteration - w.next));
      },
    )
