-- ===== src/Window.antt =====
-- What a chain of keys promises its receiver, without the keys: which counters it can still open.
-- The receiving chains of rust/protocol/src/session_cipher.rs and the sender keys of
-- rust/protocol/src/group_cipher.rs each move such a window.
pub mod Within
use mathlib.Core.Option
use libsignal_client.Common.{
  ℕ, zero, suc, Option, none, some, List, [], ◌∷◌, remove_at, ◌==◌, if◌then◌else◌,
}

-- The counter that comes next, and the counters before it that were stepped over and can still be
-- opened.
pub record Window : Type 0 where
  pub next : ℕ
  pub kept : List ℕ

pub data Answer : Type 0 where
  opened duplicate too_far : Answer

unfoldable pub position : ℕ → List ℕ → Option ℕ
position t [] = none
position t (k ∷ ks) = if k == t then some zero else Option.map suc (position t ks)

-- A counter that was passed is opened if it was kept, and is kept no longer.
unfoldable pub late : Window → Option ℕ → Answer × Window
late w none = (duplicate, w)
late w (some place) = (opened, record w { kept = remove_at w.kept place })
