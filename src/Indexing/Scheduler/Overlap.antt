-- ===== src/Indexing/Scheduler/Overlap.antt =====
-- The jobs over time: ticks of the timers and tasks that settle, in any order. The timers and the
-- promises are the platform's; a task is asynchronous, so that its call itself does not throw.
use stasharr_portal.Prelude.{
  ℕ, ◌+◌, ◌-◌, ◌≤◌, ◌≡◌, refl, not, ◌&&◌, ◌||◌, List, [], ◌∷◌, ◌++◌, arith, if◌then◌else◌, sym, ap,
  ◌∙◌, inl, inr, true, false, Bool-cases, ◌↔◌, ◌==◌,
}
use stasharr_portal.Prelude.Text.{Text, text_eq, eq_text, text_eq_iff, text_eq_refl}
use stasharr_portal.Indexing.Scheduler.{
  Jobs, Outcome, set_has, set_delete, land, run_in_background, settle, no_jobs,
}

-- The tasks of a job that are in flight.
abbrev pub times : Text → List Text → ℕ
times job [] = 0
times job (other ∷ tasks) = (if text_eq other job then 1 else 0) + times job tasks

pub data Step : Jobs → Jobs → Type 0 where
  ticked : (job : Text) (jobs : Jobs) → Step jobs (run_in_background job jobs)
  settled :
      (job : Text) (outcome : Outcome) (jobs : Jobs)
      → 1 ≤ times job jobs.in_flight
      → Step jobs (settle job outcome jobs)

pub data Reachable : Jobs → Type 0 where
  fresh : Reachable no_jobs
  after : {jobs jobs' : Jobs} → Reachable jobs → Step jobs jobs' → Reachable jobs'

-- The set holds a job exactly while one task of it is in flight.
abbrev Tracked : Jobs → Type 0
Tracked jobs =
    (job : Text) → times job jobs.in_flight ≡ (if set_has job jobs.running_jobs then 1 else 0)

text_eq-apart : (a b c : Text) → text_eq a b ≡ false → text_eq a c ≡ true → text_eq b c ≡ false
text_eq-apart a b c differ same = elim (Bool-cases (text_eq b c)) [
  | inl e ↦
      let equal : a ≡ b = (text_eq_iff a c).0 same ∙ sym ((text_eq_iff b c).0 e) in
      cc (sym ((text_eq_iff a b).1 equal) ∙ differ)
  | inr e ↦ e
]

text_eq-same : (a b c : Text) → text_eq a b ≡ true → text_eq a c ≡ text_eq b c
text_eq-same a b c same = ap (λ x. text_eq x c) ((text_eq_iff a b).0 same)

set_has-append :
    (j job : Text) (jobs : List Text)
    → set_has j (jobs ++ (job ∷ [])) ≡ (set_has j jobs || text_eq job j)
unfolding set_has
set_has-append j job [] = ground arith
set_has-append j job (other ∷ jobs) = ground (arith, set_has-append j job jobs)

set_has-set_delete :
    (j job : Text) (jobs : List Text)
    → set_has j (set_delete job jobs) ≡ (set_has j jobs && not (text_eq job j))
unfolding set_has set_delete
set_has-set_delete j job [] = refl
set_has-set_delete j job (other ∷ jobs) =
    ground
      (arith, set_has-set_delete j job jobs, text_eq-apart other job j, text_eq-same other job j)

times-land :
    (j job : Text) (tasks : List Text)
    → times j (land job tasks) ≡ times j tasks - (if text_eq job j then 1 else 0)
unfolding land
times-land j job [] = ground arith
times-land j job (other ∷ tasks) =
    ground (arith, times-land j job tasks, text_eq-apart other job j, text_eq-same other job j)

run_in_background-Tracked :
    (job : Text) (jobs : Jobs) → Tracked jobs → Tracked (run_in_background job jobs)
unfolding run_in_background
run_in_background-Tracked job jobs h j = elim (Bool-cases (set_has job jobs.running_jobs)) [
  | inl e ↦ rw (e, run_in_background) (h j)
  | inr e ↦
      rw (e, run_in_background)
        (ground (arith, h j, set_has-append j job jobs.running_jobs, at_job e))
]
  where
    at_job :
        set_has job jobs.running_jobs ≡ false
        → text_eq job j ≡ true
        → set_has j jobs.running_jobs ≡ false
    at_job e d = ap (λ k. set_has k jobs.running_jobs) (sym ((text_eq_iff job j).0 d)) ∙ e

settle-Tracked :
    (job : Text) (outcome : Outcome) (jobs : Jobs)
    → Tracked jobs
    → Tracked (settle job outcome jobs)
unfolding settle
settle-Tracked job outcome jobs h j =
    ground (arith, h j, times-land j job jobs.in_flight, set_has-set_delete j job jobs.running_jobs)

pub Reachable-Tracked : (jobs : Jobs) → Reachable jobs → Tracked jobs
unfolding set_has
Reachable-Tracked _ fresh = λ j. refl
Reachable-Tracked _ (after r (ticked job jobs)) =
    run_in_background-Tracked job jobs (Reachable-Tracked jobs r)
Reachable-Tracked _ (after r (settled job outcome jobs e)) =
    settle-Tracked job outcome jobs (Reachable-Tracked jobs r)

-- Two tasks of one job are never in flight together, whatever the order of the ticks and of the
-- ends of the tasks; and a job counts as running exactly while a task of it is in flight.
pub one_task_in_flight :
    (jobs : Jobs) (job : Text)
    → Reachable jobs
    → (times job jobs.in_flight ≤ 1)
      × ((set_has job jobs.running_jobs ≡ true) ↔ (times job jobs.in_flight ≡ 1))
one_task_in_flight jobs job r = ground (arith, Reachable-Tracked jobs r job)

starts :
    (jobs : Jobs) (job : Text)
    → Tracked jobs
    → (run_in_background job jobs).started
      ≡ (if times job jobs.in_flight == 0 then job ∷ jobs.started else jobs.started)
unfolding run_in_background
starts jobs job h = elim (Bool-cases (set_has job jobs.running_jobs)) [
  | inl e ↦ rw (e, run_in_background) (ground (arith, h job, e))
  | inr e ↦ rw (e, run_in_background) (ground (arith, h job, e))
]

settle-started :
    (jobs : Jobs) (job : Text) (outcome : Outcome)
    → Tracked jobs
    → (times job (settle job outcome jobs).in_flight ≡ 0)
      × ((settle job outcome jobs).started ≡ jobs.started)
unfolding settle
settle-started jobs job outcome h =
    (ground (arith, h job, times-land job job jobs.in_flight, text_eq_refl job), refl)

-- A tick starts the job's task exactly where none of it is in flight; and once the task in flight
-- ends, with whatever outcome, the next tick starts a new one.
pub run_in_background-started :
    (jobs : Jobs) (job : Text) (outcome : Outcome)
    → Reachable jobs
    → ((run_in_background job jobs).started
        ≡ (if times job jobs.in_flight == 0 then job ∷ jobs.started else jobs.started))
      × ((run_in_background job (settle job outcome jobs)).started ≡ job ∷ jobs.started)
run_in_background-started jobs job outcome r =
    let h : Tracked jobs = Reachable-Tracked jobs r in
    (
      starts jobs job h,
      starts (settle job outcome jobs) job (settle-Tracked job outcome jobs h)
          ∙ (let (idle, same) = settle-started jobs job outcome h in rw (idle, same) refl),
    )
