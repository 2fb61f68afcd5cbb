-- ===== src/Auth/LoginAttempts/Tests.antt =====
-- Runs of the throttle on concrete inputs, and the theorems at inputs that meet their hypotheses.
use stasharr_portal.Prelude.Dict.{get, put, remove}
use stasharr_portal.Prelude.Text.{Text, text, text_eq, eq_text}
use stasharr_portal.Prelude.{◌≡◌, refl, List, [], ◌∷◌, arith}
use stasharr_portal.Auth.LoginAttempts.{
  assert_allowed, record_failure, clear, err, too_many_requests, ok,
}
use stasharr_portal.Auth.LoginAttempts.Lockout.{view, IsWellFormed}
use stasharr_portal.Auth.LoginAttempts.Streak.{
  Call, fails, clears, asserts, run, run_lock, failures_at, view-run, fifth_failure_locks,
  run-IsWellFormed,
}

abbrev ip : Text
ip = text "ip:10.0.0.7"

abbrev other : Text
other = text "ip:10.0.0.8"

throttle : Unit {0}
unfolding assert_allowed record_failure clear get put remove text_eq
throttle = tt

abbrev burst : List Call
burst = failures_at ip (1 ∷ 2 ∷ 3 ∷ 4 ∷ 5 ∷ [])

locked_then_free :
    ((assert_allowed ip 60004 (run burst [])).1 ≡ err too_many_requests)
    × ((assert_allowed ip 60005 (run burst [])).1 ≡ ok tt)
    × ((assert_allowed other 60004 (run burst [])).1 ≡ ok tt)
    × ((assert_allowed ip 6 (run (clears ip ∷ []) (run burst []))).1 ≡ ok tt)
unfolding throttle
locked_then_free = (refl, refl, refl, refl)

empty-IsWellFormed : IsWellFormed []
unfolding get
empty-IsWellFormed key = tt

fifth_failure_locks_example :
    ((assert_allowed ip 60004 (run (failures_at ip (1 ∷ 2 ∷ 3 ∷ 4 ∷ [])) [])).1 ≡ ok tt)
    × ((assert_allowed ip 60004
          (record_failure ip 5 (run (failures_at ip (1 ∷ 2 ∷ 3 ∷ 4 ∷ [])) []))).1
        ≡ err too_many_requests)
unfolding view get
fifth_failure_locks_example =
    fifth_failure_locks ip (1 ∷ 2 ∷ 3 ∷ 4 ∷ []) 5 60004 [] empty-IsWellFormed refl (omega arith)

view-run_example :
    view ip (run (fails other 3 ∷ fails ip 4 ∷ asserts ip 9 ∷ []) [])
    ≡ run_lock ip (fails other 3 ∷ fails ip 4 ∷ asserts ip 9 ∷ []) (view ip [])
view-run_example =
    view-run ip (fails other 3 ∷ fails ip 4 ∷ asserts ip 9 ∷ []) [] empty-IsWellFormed

run-IsWellFormed_example : IsWellFormed (run burst [])
run-IsWellFormed_example = run-IsWellFormed burst [] empty-IsWellFormed
