-- ===== src/Auth/LoginAttempts.antt =====
-- The throttle on failed logins, apps/sp-api/src/auth/login-attempt.service.ts. A method is a
-- function of the `attempts` map; `Date.now()` is the argument `now`.
use stasharr_portal.Prelude.Results.{Result, Handler, ok, err, too_many_requests}
use stasharr_portal.Prelude.Dict.{Dict, get, put, remove}
use stasharr_portal.Prelude.Text.{Text, eq_text}
use stasharr_portal.Prelude.{ℕ, ◌+◌, Bool, false, Option, none, some, leb, ◌==◌, if◌then◌else◌}
pub mod Lockout
pub mod Streak
pub mod Tests

pub record AttemptState : Type 0 where
  pub failures : ℕ
  pub blocked_until : Option ℕ

abbrev pub Attempts : Type 0
Attempts = Dict Text AttemptState

abbrev pub max_failures : ℕ
max_failures = 5

abbrev pub cooldown_ms : ℕ
cooldown_ms = 60000

-- The tests of `assertAllowed` once an entry is found; a `blockedUntil` of 0 is falsy.
check_entry : Text → ℕ → Attempts → Option ℕ → Attempts × Result (Unit {0})
check_entry key now attempts none = (attempts, ok tt)
check_entry key now attempts (some t) =
    if t == 0
    then (attempts, ok tt)
    else if leb t now
    then (remove key attempts, ok tt)
    else (attempts, err too_many_requests)

unfoldable pub assert_allowed : Text → ℕ → Handler Attempts (Unit {0})
unfolding check_entry
assert_allowed key now attempts = elim (get key attempts) [
  | none ↦ (attempts, ok tt)
  | some state ↦ check_entry key now attempts state.blocked_until
]

-- `blockedUntil !== null && blockedUntil <= now`
abbrev cooled_down : ℕ → Option ℕ → Bool
cooled_down now none = false
cooled_down now (some t) = leb t now

abbrev pub first_failure : AttemptState
first_failure = record { failures = 1; blocked_until = none }

next_state : ℕ → AttemptState → AttemptState
next_state now current =
    if cooled_down now current.blocked_until
    then first_failure
    else (let n = current.failures + 1 in
        record {
          failures = n;
          blocked_until = if leb max_failures n then some (now + cooldown_ms) else none;
        })

unfoldable pub record_failure : Text → ℕ → Attempts → Attempts
unfolding next_state
record_failure key now attempts = elim (get key attempts) [
  | none ↦ put key first_failure attempts
  | some current ↦ put key (next_state now current) attempts
]

unfoldable pub clear : Text → Attempts → Attempts
clear key attempts = remove key attempts
