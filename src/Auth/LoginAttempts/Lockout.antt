-- ===== src/Auth/LoginAttempts/Lockout.antt =====
-- The lockout that the throttle implements, and the refinement: seen at one key, the `attempts`
-- map is a counter that locks for a minute at the fifth failure in a row.
use stasharr_portal.Prelude.Results.{Result}
use stasharr_portal.Prelude.Dict.{get, put, remove, get-put, get-remove}
use stasharr_portal.Prelude.Text.{Text, text_eq, eq_text, text_eq_iff}
use stasharr_portal.Prelude.{
  ℕ, ◌+◌, ◌≤◌, ◌<◌, ◌≡◌, Option, none, some, arith, leb, if◌then◌else◌, inl, inr, Bool-cases, refl,
  ◌==◌, Option-cases,
}
use stasharr_portal.Auth.LoginAttempts.{
  AttemptState, Attempts, max_failures, cooldown_ms, check_entry, assert_allowed, first_failure,
  next_state, record_failure, clear, ok, err, too_many_requests,
}

-- `counting n`: n failures, not locked; `locked t`: refused before the time t.
pub data Lock : Type 0 where
  counting : ℕ → Lock
  locked : ℕ → Lock

abbrev pub fail_lock : ℕ → Lock → Lock
fail_lock now (counting n) =
    if leb max_failures (n + 1) then locked (now + cooldown_ms) else counting (n + 1)
fail_lock now (locked t) = if leb t now then counting 1 else locked (now + cooldown_ms)

abbrev pub check_lock : ℕ → Lock → Lock × Result (Unit {0})
check_lock now (counting n) = (counting n, ok tt)
check_lock now (locked t) =
    if leb t now then (counting 0, ok tt) else (locked t, err too_many_requests)

abbrev view_state : AttemptState → Lock
view_state s = elim s.blocked_until [ none ↦ counting s.failures | some t ↦ locked t ]

abbrev view_entry : Option AttemptState → Lock
view_entry none = counting 0
view_entry (some s) = view_state s

-- What one key's entry means.
unfoldable pub view : Text → Attempts → Lock
view key attempts = view_entry (get key attempts)

-- An entry is locked from the fifth failure on, and only then; no lock ends at the epoch.
abbrev IsSoundBlock : ℕ → Option ℕ → Type 0
IsSoundBlock failures none = failures < max_failures
IsSoundBlock failures (some t) = (0 < t) × (max_failures ≤ failures)

abbrev IsSoundEntry : Option AttemptState → Type 0
IsSoundEntry none = Unit
IsSoundEntry (some s) = IsSoundBlock s.failures s.blocked_until

abbrev pub IsWellFormed : Attempts → Type 0
IsWellFormed attempts = (key : Text) → IsSoundEntry (get key attempts)

next_state-IsSound :
    (now : ℕ) (s : AttemptState)
    → IsSoundBlock s.failures s.blocked_until
    → IsSoundBlock (next_state now s).failures (next_state now s).blocked_until
unfolding next_state
next_state-IsSound now s h = ground arith

next_state-view :
    (now : ℕ) (s : AttemptState)
    → IsSoundBlock s.failures s.blocked_until
    → view_state (next_state now s) ≡ fail_lock now (view_state s)
unfolding next_state
next_state-view now s h = ground arith

-- Writing or deleting one entry keeps the others well formed.
put-IsWellFormed :
    (key : Text) (s : AttemptState) (m : Attempts)
    → IsSoundBlock s.failures s.blocked_until
    → IsWellFormed m
    → IsWellFormed (put key s m)
put-IsWellFormed key s m h w j = elim (Bool-cases (text_eq key j)) [
  | inl e ↦ rw (get-put key j s m, e) h
  | inr e ↦ rw (get-put key j s m, e) (w j)
]

remove-IsWellFormed : (key : Text) (m : Attempts) → IsWellFormed m → IsWellFormed (remove key m)
remove-IsWellFormed key m w j = elim (Bool-cases (text_eq key j)) [
  | inl e ↦ rw (get-remove key j m, e) tt
  | inr e ↦ rw (get-remove key j m, e) (w j)
]

pub record_failure-IsWellFormed :
    (key : Text) (now : ℕ) (m : Attempts) → IsWellFormed m → IsWellFormed (record_failure key now m)
unfolding record_failure
record_failure-IsWellFormed key now m w = elim (Option-cases (get key m)) [
  | inl e ↦ rw (e, record_failure) (put-IsWellFormed key first_failure m (omega arith) w)
  | inr (s, e) ↦
      rw (e, record_failure)
        (put-IsWellFormed key (next_state now s) m (next_state-IsSound now s (rw e at (w key))) w)
]

check_entry-IsWellFormed :
    (key : Text) (now : ℕ) (m : Attempts) (until : Option ℕ)
    → IsWellFormed m
    → IsWellFormed (check_entry key now m until).0
unfolding check_entry
check_entry-IsWellFormed key now m none w = w
check_entry-IsWellFormed key now m (some t) w = elim (Bool-cases (t == 0)) [
  | inl e ↦ rw e w
  | inr e ↦ elim (Bool-cases (leb t now)) [
    | inl l ↦ rw (e, l) (remove-IsWellFormed key m w)
    | inr l ↦ rw (e, l) w
  ]
]

pub assert_allowed-IsWellFormed :
    (key : Text) (now : ℕ) (m : Attempts)
    → IsWellFormed m
    → IsWellFormed (assert_allowed key now m).0
unfolding assert_allowed
assert_allowed-IsWellFormed key now m w = elim (Option-cases (get key m)) [
  | inl e ↦ rw (e, assert_allowed) w
  | inr (s, e) ↦ rw (e, assert_allowed) (check_entry-IsWellFormed key now m s.blocked_until w)
]

pub clear-IsWellFormed : (key : Text) (m : Attempts) → IsWellFormed m → IsWellFormed (clear key m)
unfolding clear
clear-IsWellFormed key m w = remove-IsWellFormed key m w

pub view-record_failure :
    (key j : Text) (now : ℕ) (m : Attempts)
    → IsWellFormed m
    → view j (record_failure key now m)
      ≡ (if text_eq key j then fail_lock now (view key m) else view j m)
unfolding record_failure view
view-record_failure key j now m w = elim (Option-cases (get key m)) [
  | inl e ↦ rw (e, record_failure, get-put key j first_failure m) (ground (arith))
  | inr (s, e) ↦
      rw (e, record_failure, get-put key j (next_state now s) m)
        (ground (arith, next_state-view now s (rw e at (w key))))
]

check_entry-view :
    (key j : Text) (now : ℕ) (m : Attempts) (s : AttemptState)
    → get key m ≡ some s
    → IsSoundBlock s.failures s.blocked_until
    → ((check_entry key now m s.blocked_until).1 ≡ (check_lock now (view_state s)).1)
      × (view j (check_entry key now m s.blocked_until).0
          ≡ (if text_eq key j then (check_lock now (view_state s)).0 else view j m))
unfolding check_entry view
check_entry-view key j now m s e h = ground (arith, get-remove key j m, text_eq_iff key j)

pub view-assert_allowed :
    (key j : Text) (now : ℕ) (m : Attempts)
    → IsWellFormed m
    → ((assert_allowed key now m).1 ≡ (check_lock now (view key m)).1)
      × (view j (assert_allowed key now m).0
          ≡ (if text_eq key j then (check_lock now (view key m)).0 else view j m))
unfolding assert_allowed view
view-assert_allowed key j now m w = elim (Option-cases (get key m)) [
  | inl e ↦ rw (e, assert_allowed) (refl, ground (arith, text_eq_iff key j))
  | inr (s, e) ↦ rw (e, assert_allowed) (check_entry-view key j now m s e (rw e at (w key)))
]

pub view-clear :
    (key j : Text) (m : Attempts)
    → view j (clear key m) ≡ (if text_eq key j then counting 0 else view j m)
unfolding clear view
view-clear key j m = rw (get-remove key j m) (ground arith)
