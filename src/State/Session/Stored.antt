-- ===== src/State/Session/Stored.antt =====
-- The message keys that a chain keeps for late messages: their counters fall along the list.
use libsignal_client.Common.{
  ℕ, zero, suc, ◌≤◌, ◌<◌, ◌≡◌, refl, none, some, List, [], ◌∷◌, arith, take, remove_at,
}
use libsignal_client.Proto.Storage.{MessageKey}
use libsignal_client.State.Session.{find_message_key}

abbrev pub Descending : ℕ → List MessageKey → Type 0
Descending n [] = Unit {0}
Descending n (k ∷ ks) = (k.index < n) × Descending k.index ks

pub Descending-mono : (m n : ℕ) (ks : List MessageKey) → m ≤ n → Descending m ks → Descending n ks
Descending-mono m n [] h d = tt
Descending-mono m n (k ∷ ks) h d = (omega arith, d.1)

pub take-Descending : (c n : ℕ) (ks : List MessageKey) → Descending n ks → Descending n (take c ks)
unfolding take
take-Descending zero n ks d = tt
take-Descending (suc c) n [] d = tt
take-Descending (suc c) n (k ∷ ks) d = (d.0, take-Descending c k.index ks d.1)

pub remove_at-Descending :
    (i n : ℕ) (ks : List MessageKey) → Descending n ks → Descending n (remove_at ks i)
unfolding remove_at
remove_at-Descending i n [] d = tt
remove_at-Descending zero n (k ∷ ks) d = Descending-mono k.index n ks (omega arith) d.1
remove_at-Descending (suc i) n (k ∷ ks) d = (d.0, remove_at-Descending i k.index ks d.1)

-- No key is kept for a counter at or above the bound.
pub find_above :
    (t n : ℕ) (ks : List MessageKey) → Descending n ks → n ≤ t → find_message_key t ks ≡ none
unfolding find_message_key
find_above t n [] d h = refl
find_above t n (k ∷ ks) d h = ground (arith, find_above t k.index ks d.1)

-- A key that was taken out is gone.
pub find-remove_at :
    (t n : ℕ) (ks : List MessageKey) (m : MessageKey) (i : ℕ)
    → Descending n ks
    → find_message_key t ks ≡ some (m, i)
    → find_message_key t (remove_at ks i) ≡ none
unfolding find_message_key remove_at
find-remove_at t n [] m i d h = refl
find-remove_at t n (k ∷ ks) m zero d h = ground (arith, find_above t k.index ks d.1)
find-remove_at t n (k ∷ ks) m (suc i) d h = ground (arith, find-remove_at t k.index ks m i d.1)
