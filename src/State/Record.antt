-- ===== src/State/Record.antt =====
-- `SessionRecord` of rust/protocol/src/state/session.rs: the current session, and the archived
-- ones, newest first.
use libsignal_client.Common.{
  ℕ, ◌≤◌, ◌≡◌, refl, Bool, true, false, ◌&&◌, ◌||◌, Option, none, some, List, [], ◌∷◌, arith,
  length, remove_at, drop_last, length-drop_last, All, All-remove_at, length-remove_at-le,
  Bool-cases, Option-cases, inl, inr, ltb, ◌==◌, if◌then◌else◌,
}
use libsignal_client.Common.Bytes.{Bytes, bytes_eq}
use libsignal_client.Consts.{archived_states_max_length}
use libsignal_client.Error.{Result, ok, err, invalid_state}
use libsignal_client.State.Session.WellFormed.{WellFormed}
use libsignal_client.State.Session.{SessionState, session_version}

pub record SessionRecord : Type 0 where
  pub current_session : Option SessionState
  pub previous_sessions : List SessionState

unfoldable pub new_fresh : SessionRecord
new_fresh = record { current_session = none; previous_sessions = [] }

unfoldable pub new : SessionState → SessionRecord
new state = record { current_session = some state; previous_sessions = [] }

unfoldable pub matches_session : ℕ → Bytes → SessionState → Bool
matches_session version alice_base_key s =
    session_version s == version && bytes_eq alice_base_key s.alice_base_key

unfoldable pub any_session : ℕ → Bytes → List SessionState → Bool
any_session version alice_base_key [] = false
any_session version alice_base_key (s ∷ ss) =
    matches_session version alice_base_key s || any_session version alice_base_key ss

unfoldable pub has_session_state : ℕ → Bytes → SessionRecord → Bool
unfolding any_session matches_session
has_session_state version alice_base_key r = elim r.current_session [
  | none ↦ any_session version alice_base_key r.previous_sessions
  | some current ↦
      matches_session version alice_base_key current
      || any_session version alice_base_key r.previous_sessions
]

-- `session_state` and `session_state_mut`
unfoldable pub session_state : SessionRecord → Result SessionState
session_state r = elim r.current_session [
  | none ↦ err (invalid_state "session_state" "No session")
  | some session ↦ ok session
]

unfoldable pub set_session_state : SessionState → SessionRecord → SessionRecord
set_session_state session r = record r { current_session = some session }

-- `push_front`, and `pop_back` of what is too much.
unfoldable pub push_archived : SessionState → List SessionState → List SessionState
push_archived s ss =
    let more = s ∷ ss in
    if ltb archived_states_max_length (length more) then drop_last more else more

unfoldable pub archive_current_state : SessionRecord → SessionRecord
unfolding push_archived
archive_current_state r = elim r.current_session [
  | none ↦ r
  | some current ↦ record {
    current_session = none;
    previous_sessions = push_archived current r.previous_sessions;
  }
]

unfoldable pub promote_state : SessionState → SessionRecord → SessionRecord
unfolding archive_current_state
promote_state new_state r = record (archive_current_state r) { current_session = some new_state }

unfoldable pub promote_old_session : ℕ → SessionState → SessionRecord → Result SessionRecord
unfolding promote_state
promote_old_session old_session updated_session r =
    if ltb old_session (length r.previous_sessions)
    then ok (
        promote_state updated_session
          (record r { previous_sessions = remove_at r.previous_sessions old_session }))
    else err (invalid_state "promote_old_session" "out of range")

unfoldable pub is_fresh : SessionRecord → Bool
is_fresh r = elim r.current_session [
  | none ↦ elim r.previous_sessions [ [] ↦ true | _ ∷ _ ↦ false ]
  | some _ ↦ false
]

archive-bounded :
    (s : SessionState) (ss : List SessionState)
    → length ss ≤ archived_states_max_length
    → length (push_archived s ss) ≤ archived_states_max_length
unfolding push_archived
archive-bounded s ss h = ground (arith, length-drop_last (s ∷ ss))

-- Every session of the record keeps its invariant, and the archive its limit.
abbrev pub CurrentWellFormed : Option SessionState → Type 0
CurrentWellFormed none = Unit {0}
CurrentWellFormed (some s) = WellFormed s

pub record RecordWellFormed (r : SessionRecord) : Type 0 where
  pub current : CurrentWellFormed r.current_session
  pub previous : All WellFormed r.previous_sessions
  pub archived : length r.previous_sessions ≤ archived_states_max_length

drop_last-All : (ss : List SessionState) → All WellFormed ss → All WellFormed (drop_last ss)
unfolding drop_last
drop_last-All [] a = tt
drop_last-All (s ∷ []) a = tt
drop_last-All (s ∷ t ∷ ss) a = (a.0, drop_last-All (t ∷ ss) a.1)

push_archived-All :
    (s : SessionState) (ss : List SessionState)
    → WellFormed s
    → All WellFormed ss
    → All WellFormed (push_archived s ss)
unfolding push_archived
push_archived-All s ss w a = elim (Bool-cases (ltb archived_states_max_length (length (s ∷ ss)))) [
  | inl full ↦ rw full (drop_last-All (s ∷ ss) (w, a))
  | inr fits ↦ rw fits (w, a)
]

pub archive_current_state-WellFormed :
    (r : SessionRecord) → RecordWellFormed r → RecordWellFormed (archive_current_state r)
unfolding archive_current_state
archive_current_state-WellFormed r w = elim (Option-cases r.current_session) [
  | inl e ↦ rw (e, archive_current_state) w
  | inr (s, e) ↦
      rw (e, archive_current_state)
        (record {
          current = tt;
          previous = push_archived-All s r.previous_sessions (rw e at w.current) w.previous;
          archived = archive-bounded s r.previous_sessions w.archived;
        })
]

-- Archiving the current session and putting another in its place keeps the invariant.
pub promote_state-WellFormed :
    (s : SessionState) (r : SessionRecord)
    → WellFormed s
    → RecordWellFormed r
    → RecordWellFormed (promote_state s r)
unfolding promote_state
promote_state-WellFormed s r f w =
    let a = archive_current_state-WellFormed r w in
    record { current = f; previous = a.previous; archived = a.archived }

pub promote_old_session-WellFormed :
    (i : ℕ) (s : SessionState) (r : SessionRecord) {r' : SessionRecord}
    → WellFormed s
    → RecordWellFormed r
    → promote_old_session i s r ≡ ok r'
    → RecordWellFormed r' × (r'.current_session ≡ some s)
unfolding promote_old_session
promote_old_session-WellFormed i s r {r'} f w h =
    let smaller : SessionRecord = record r {
      previous_sessions = remove_at r.previous_sessions i;
    } in
    let e : r' ≡ promote_state s smaller = ground arith in
    rw e (
      promote_state-WellFormed s smaller f (record {
        current = w.current;
        previous = All-remove_at WellFormed r.previous_sessions i w.previous;
        archived = omega (arith, length-remove_at-le r.previous_sessions i, w.archived);
      }),
      refl,
    )
