-- ===== src/Indexing/Scheduler/Tests.antt =====
-- The scheduler on concrete ticks and environments, and its theorems at such inputs.
use stasharr_portal.Prelude.{
  ℕ, ◌≤◌, ◌≡◌, refl, ◌↔◌, true, false, none, some, List, [], ◌∷◌, arith, ◌==◌, if◌then◌else◌,
}
use stasharr_portal.Prelude.Text.{Text, text, text_eq, eq_text, trim, to_lower}
use stasharr_portal.Indexing.Scheduler.{
  Jobs, failed, Env, Diagnostics, no_jobs, run_in_background, settle, set_has, set_add, set_delete,
  land, is_env_flag_enabled, read_non_negative_integer_env, parse_non_negative, digits_from, to_mb,
  log_job_completion, maybe_write_heap_snapshot, maybe_log_gc_sample,
  is_any_memory_diagnostic_enabled,
}
use stasharr_portal.Indexing.Scheduler.Overlap.{
  Reachable, fresh, after, ticked, times, one_task_in_flight, run_in_background-started,
}
use stasharr_portal.Indexing.Scheduler.Snapshots.{
  Completion, completions, max_snapshots, completions-bounded,
}

abbrev queue_job : Text
queue_job = text "whisparr-queue"

abbrev env : Env
env name =
    if text_eq name (text "STASHARR_INDEXING_HEAP_SNAPSHOT")
    then some (text " Yes ")
    else if text_eq name (text "STASHARR_INDEXING_HEAP_SNAPSHOT_MAX_COUNT")
    then some (text "2 of them")
    else if text_eq name (text "STASHARR_INDEXING_HEAP_SNAPSHOT_MIN_INTERVAL_MS")
    then some (text "-5")
    else none

abbrev start : Diagnostics
start = record {
  last_gc_sample_at = 0;
  gc_unavailable_logged = false;
  last_heap_snapshot_at = 0;
  heap_snapshots_written = 0;
}

abbrev at_time : ℕ → Completion
at_time t = record { now = t; heap_used = 1073741824; gc_available = false; written = true }

abbrev three : List Completion
three = at_time 1000 ∷ at_time 2000 ∷ at_time 2000000 ∷ at_time 9000000 ∷ []

scheduler : Unit {0}
unfolding text_eq trim to_lower run_in_background settle set_has set_add set_delete land
    is_env_flag_enabled read_non_negative_integer_env parse_non_negative digits_from to_mb
    log_job_completion maybe_write_heap_snapshot maybe_log_gc_sample
    is_any_memory_diagnostic_enabled
scheduler = tt

tests :
    ((run_in_background queue_job (run_in_background queue_job no_jobs)).started ≡ queue_job ∷ [])
    × ((completions env three start).heap_snapshots_written ≡ 2)
    × ((completions env (at_time 1000 ∷ at_time 2000 ∷ []) start).heap_snapshots_written ≡ 1)
    × (read_non_negative_integer_env env (text "STASHARR_INDEXING_HEAP_SNAPSHOT_MIN_INTERVAL_MS") 7
        ≡ 7)
unfolding scheduler
tests = (refl, refl, refl, refl)

abbrev ticks : Jobs
ticks = run_in_background queue_job no_jobs

ticks-Reachable : Reachable ticks
ticks-Reachable = after fresh (ticked queue_job no_jobs)

one_task_in_flight_example :
    (times queue_job ticks.in_flight ≤ 1)
    × ((set_has queue_job ticks.running_jobs ≡ true) ↔ (times queue_job ticks.in_flight ≡ 1))
one_task_in_flight_example = one_task_in_flight ticks queue_job ticks-Reachable

run_in_background-started_example :
    ((run_in_background queue_job ticks).started
      ≡ (if times queue_job ticks.in_flight == 0 then queue_job ∷ ticks.started else ticks.started))
    × ((run_in_background queue_job (settle queue_job failed ticks)).started
        ≡ queue_job ∷ ticks.started)
run_in_background-started_example = run_in_background-started ticks queue_job failed ticks-Reachable

start-bounded : start.heap_snapshots_written ≤ max_snapshots env
start-bounded = omega arith

completions-bounded_example :
    (completions env three start).heap_snapshots_written ≤ max_snapshots env
completions-bounded_example = completions-bounded env three start start-bounded
