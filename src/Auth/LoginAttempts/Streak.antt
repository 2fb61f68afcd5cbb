-- ===== src/Auth/LoginAttempts/Streak.antt =====
-- The throttle over sequences of calls: any calls, on any keys, and a streak of failures.
use stasharr_portal.Prelude.Text.{Text, text_eq, text_eq_iff, eq_text, text_eq_refl}
use stasharr_portal.Prelude.{
  ℕ, ◌+◌, ◌<◌, ◌≡◌, refl, ap, ◌∙◌, inl, inr, List, [], ◌∷◌, map, arith, ltb, if◌then◌else◌,
  Bool-cases, length, false, ◌&&◌, leb, ◌==◌,
}
use stasharr_portal.Auth.LoginAttempts.{
  Attempts, max_failures, cooldown_ms, assert_allowed, record_failure, clear, ok, err,
  too_many_requests,
}
use stasharr_portal.Auth.LoginAttempts.Lockout.{
  Lock, counting, fail_lock, check_lock, view, IsWellFormed, record_failure-IsWellFormed,
  assert_allowed-IsWellFormed, clear-IsWellFormed, view-record_failure, view-assert_allowed,
  view-clear,
}

-- A call of a method of the service, at a time.
pub data Call : Type 0 where
  asserts : Text → ℕ → Call
  fails : Text → ℕ → Call
  clears : Text → Call

abbrev pub step : Call → Attempts → Attempts
step (asserts key now) m = (assert_allowed key now m).0
step (fails key now) m = record_failure key now m
step (clears key) m = clear key m

abbrev pub run : List Call → Attempts → Attempts
run [] m = m
run (c ∷ cs) m = run cs (step c m)

-- What one key's lock does at a call: nothing, if the call names another key.
abbrev pub step_lock : Text → Call → Lock → Lock
step_lock j (asserts key now) l = if text_eq key j then (check_lock now l).0 else l
step_lock j (fails key now) l = if text_eq key j then fail_lock now l else l
step_lock j (clears key) l = if text_eq key j then counting 0 else l

abbrev pub run_lock : Text → List Call → Lock → Lock
run_lock j [] l = l
run_lock j (c ∷ cs) l = run_lock j cs (step_lock j c l)

step-IsWellFormed : (c : Call) (m : Attempts) → IsWellFormed m → IsWellFormed (step c m)
step-IsWellFormed (asserts key now) m w = assert_allowed-IsWellFormed key now m w
step-IsWellFormed (fails key now) m w = record_failure-IsWellFormed key now m w
step-IsWellFormed (clears key) m w = clear-IsWellFormed key m w

-- On the key's own entry the two views agree, so the test may name either.
same_view :
    (key j : Text) (m : Attempts) (f : Lock → Lock)
    → (if text_eq key j then f (view key m) else view j m)
      ≡ (if text_eq key j then f (view j m) else view j m)
same_view key j m f = elim (Bool-cases (text_eq key j)) [
  | inl e ↦ rw e (ap (λ k. f (view k m)) ((text_eq_iff key j).0 e))
  | inr e ↦ rw e
]

view-step :
    (j : Text) (c : Call) (m : Attempts)
    → IsWellFormed m
    → view j (step c m) ≡ step_lock j c (view j m)
view-step j (asserts key now) m w =
    (view-assert_allowed key j now m w).1 ∙ same_view key j m (λ l. (check_lock now l).0)
view-step j (fails key now) m w =
    view-record_failure key j now m w ∙ same_view key j m (fail_lock now)
view-step j (clears key) m w = view-clear key j m

-- Every sequence of calls keeps the map well formed: an entry is locked exactly from its fifth
-- failure on.
pub run-IsWellFormed : (cs : List Call) (m : Attempts) → IsWellFormed m → IsWellFormed (run cs m)
run-IsWellFormed [] m w = w
run-IsWellFormed (c ∷ cs) m w = run-IsWellFormed cs (step c m) (step-IsWellFormed c m w)

-- From a well-formed map, any calls on any keys leave each key's lock where the calls on that key
-- alone take it.
pub view-run :
    (j : Text) (cs : List Call) (m : Attempts)
    → IsWellFormed m
    → view j (run cs m) ≡ run_lock j cs (view j m)
view-run j [] m w = refl
view-run j (c ∷ cs) m w =
    view-run j cs (step c m) (step-IsWellFormed c m w) ∙ ap (run_lock j cs) (view-step j c m w)

abbrev pub failures_at : Text → List ℕ → List Call
failures_at key times = map (fails key) times

below-leb : (n : ℕ) → n < max_failures → leb max_failures n ≡ false
below-leb n h = ground arith

step_lock-fails :
    (key : Text) (t n : ℕ)
    → n + 1 < max_failures
    → step_lock key (fails key t) (counting n) ≡ counting (n + 1)
step_lock-fails key t n h = rw (text_eq_refl key, below-leb (n + 1) h)

run_lock-failures_at :
    (key : Text) (times : List ℕ) (n : ℕ)
    → n + length times < max_failures
    → run_lock key (failures_at key times) (counting n) ≡ counting (n + length times)
run_lock-failures_at key [] n h = ap counting (omega arith)
run_lock-failures_at key (t ∷ ts) n h =
    ap (run_lock key (failures_at key ts)) (step_lock-fails key t n (omega arith))
    ∙ run_lock-failures_at key ts (n + 1) (omega arith)
    ∙ ap counting (omega arith)

view-failures_at :
    (key : Text) (times : List ℕ) (m : Attempts)
    → IsWellFormed m
    → view key m ≡ counting 0
    → length times < max_failures
    → view key (run (failures_at key times) m) ≡ counting (length times)
view-failures_at key times m w c h =
    view-run key (failures_at key times) m w
    ∙ ap (run_lock key (failures_at key times)) c
    ∙ run_lock-failures_at key times 0 (omega arith)
    ∙ ap counting (omega arith)

verdict_after_fail :
    (n t now : ℕ)
    → n < max_failures
    → (check_lock now (fail_lock t (counting n))).1
      ≡ (if n == 4 && ltb now (t + cooldown_ms) then err too_many_requests else ok tt)
verdict_after_fail n t now h = ground arith

-- From a well-formed map with no failure counted at the key: up to four failures in a row leave
-- the key allowed at every time, and one more, at the time t, has it refused exactly when four
-- came before and the time of the test is before t + 60000.
pub fifth_failure_locks :
    (key : Text) (times : List ℕ) (t now : ℕ) (m : Attempts)
    → IsWellFormed m
    → view key m ≡ counting 0
    → length times < max_failures
    → ((assert_allowed key now (run (failures_at key times) m)).1 ≡ ok tt)
      × ((assert_allowed key now (record_failure key t (run (failures_at key times) m))).1 ≡ (
          if length times == 4 && ltb now (t + cooldown_ms) then err too_many_requests else ok tt))
fifth_failure_locks key times t now m w c h =
    let m' : Attempts = run (failures_at key times) m in
    let w' = run-IsWellFormed (failures_at key times) m w in
    let v = view-failures_at key times m w c h in
    let failed = view-record_failure key key t m' w' in
    (
      (view-assert_allowed key key now m' w').0 ∙ ap (λ l. (check_lock now l).1) v,
      (view-assert_allowed key key now (record_failure key t m')
            (record_failure-IsWellFormed key t m' w')).0
          ∙ ap (λ l. (check_lock now l).1) (failed ∙ rw (text_eq_refl key, v))
          ∙ verdict_after_fail (length times) t now h,
    )
