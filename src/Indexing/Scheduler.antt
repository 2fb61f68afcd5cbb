-- ===== src/Indexing/Scheduler.antt =====
-- The jobs that run in the background and the diagnostics after each,
-- apps/sp-api/src/indexing/indexing.scheduler.ts. The environment is a function from the names of
-- its variables, a clock reading is a number of milliseconds, and what the process, the
-- collector and the file system answer are arguments.
use stasharr_portal.Prelude.{
  ℕ, ◌+◌, ◌-◌, ◌*◌, ◌/◌, Bool, true, false, not, ◌&&◌, ◌||◌, Option, none, some, List, [], ◌∷◌,
  ◌++◌, ltb, leb, ◌==◌, if◌then◌else◌,
}
use stasharr_portal.Prelude.Text.{Text, text, text_eq, eq_text, trim, to_lower, is_empty}
pub mod Overlap
pub mod Snapshots
mod Tests

-- What a task comes to.
pub data Outcome : Type 0 where
  completed failed skipped_overlap : Outcome

-- The scheduler's set of running jobs beside what is under way: the tasks in flight, the history
-- of the tasks that were started, the last first, and of the completions that were logged.
pub record Jobs : Type 0 where
  pub running_jobs : List Text
  pub in_flight : List Text
  pub started : List Text
  pub logged : List (Text × Outcome)

-- `Set.prototype.has`, `add` and `delete`.
unfoldable pub set_has : Text → List Text → Bool
set_has job [] = false
set_has job (other ∷ jobs) = text_eq other job || set_has job jobs

unfoldable pub set_add : Text → List Text → List Text
unfolding set_has
set_add job jobs = if set_has job jobs then jobs else jobs ++ (job ∷ [])

unfoldable pub set_delete : Text → List Text → List Text
set_delete job [] = []
set_delete job (other ∷ jobs) =
    let rest : List Text = set_delete job jobs in if text_eq other job then rest else other ∷ rest

-- One task of the job leaves the tasks in flight.
unfoldable pub land : Text → List Text → List Text
land job [] = []
land job (other ∷ tasks) = if text_eq other job then tasks else other ∷ land job tasks

-- The call, up to the first `await` of the task.
unfoldable pub run_in_background : Text → Jobs → Jobs
unfolding set_has set_add
run_in_background job jobs =
    if set_has job jobs.running_jobs
    then record jobs { logged = (job, skipped_overlap) ∷ jobs.logged }
    else record jobs {
      running_jobs = set_add job jobs.running_jobs;
      in_flight = job ∷ jobs.in_flight;
      started = job ∷ jobs.started;
    }

-- `finally`, after `then` or after `catch`.
unfoldable pub settle : Text → Outcome → Jobs → Jobs
unfolding set_delete land
settle job outcome jobs = record jobs {
  running_jobs = set_delete job jobs.running_jobs;
  in_flight = land job jobs.in_flight;
  logged = (job, outcome) ∷ jobs.logged;
}

abbrev pub no_jobs : Jobs
no_jobs = record { running_jobs = []; in_flight = []; started = []; logged = [] }

abbrev pub Env : Type 0
Env = Text → Option Text

unfoldable pub is_env_flag_enabled : Env → Text → Bool
is_env_flag_enabled env name = elim (env name) [
  | none ↦ false
  | some value ↦
      let raw : Text = to_lower (trim value) in
      text_eq raw (text "1") || text_eq raw (text "true") || text_eq raw (text "yes")
]

abbrev digit : ℕ → Bool
digit c = leb b'0' c && leb c b'9'

-- The digits that a text begins with, onto the number before them; none where there are none.
unfoldable pub digits_from : Option ℕ → Text → Option ℕ
digits_from acc [] = acc
digits_from acc (c ∷ s) =
    let more : Option ℕ =
      digits_from (some (elim acc [ none ↦ 0 | some n ↦ n ] * 10 + (c - b'0'))) s in
    if digit c then more else acc

-- `Number.parseInt(raw, 10)` where it is not negative, of a trimmed text; a number that
-- JavaScript rounds, from 2 ^ 53 on, is exact here.
unfoldable pub parse_non_negative : Text → Option ℕ
parse_non_negative [] = none
parse_non_negative (c ∷ s) =
    if c == b'+'
    then digits_from none s
    else if c == b'-'
    then elim (digits_from none s) [ none ↦ none | some n ↦ if n == 0 then some 0 else none ]
    else digits_from none (c ∷ s)

unfoldable pub read_non_negative_integer_env : Env → Text → ℕ → ℕ
read_non_negative_integer_env env name fallback = elim (env name) [
  | none ↦ fallback
  | some value ↦ elim (parse_non_negative (trim value)) [ none ↦ fallback | some n ↦ n ]
]

-- `Math.round(bytes / 1024 ** 2)`
unfoldable pub to_mb : ℕ → ℕ
to_mb bytes = (bytes + 524288) / 1048576

pub record Diagnostics : Type 0 where
  pub last_gc_sample_at : ℕ
  pub gc_unavailable_logged : Bool
  pub last_heap_snapshot_at : ℕ
  pub heap_snapshots_written : ℕ

-- `last > 0 && now - last < interval`
abbrev pub too_soon : ℕ → ℕ → ℕ → Bool
too_soon last now interval = ltb 0 last && ltb now (last + interval)

unfoldable pub maybe_log_gc_sample : Env → ℕ → (gc_available : Bool) → Diagnostics → Diagnostics
maybe_log_gc_sample env now gc_available d =
    if not (is_env_flag_enabled env (text "STASHARR_INDEXING_GC_LOG"))
    then d
    else if too_soon d.last_gc_sample_at now
        (read_non_negative_integer_env env (text "STASHARR_INDEXING_GC_SAMPLE_INTERVAL_MS") 900000)
    then d
    else record d {
      last_gc_sample_at = now;
      gc_unavailable_logged = d.gc_unavailable_logged || not gc_available;
    }

-- `written` is false where the directory or the snapshot cannot be written.
unfoldable pub maybe_write_heap_snapshot :
    Env → ℕ → (heap_used : ℕ) → (written : Bool) → Diagnostics → Diagnostics
maybe_write_heap_snapshot env now heap_used written d =
    if not (is_env_flag_enabled env (text "STASHARR_INDEXING_HEAP_SNAPSHOT"))
    then d
    else if ltb (to_mb heap_used)
        (read_non_negative_integer_env env (text "STASHARR_INDEXING_HEAP_SNAPSHOT_MIN_HEAP_MB") 512)
    then d
    else if leb
        (read_non_negative_integer_env env (text "STASHARR_INDEXING_HEAP_SNAPSHOT_MAX_COUNT") 4)
        d.heap_snapshots_written
    then d
    else if too_soon d.last_heap_snapshot_at now (
        read_non_negative_integer_env env (text "STASHARR_INDEXING_HEAP_SNAPSHOT_MIN_INTERVAL_MS")
          1800000)
    then d
    else if written
    then record d {
      last_heap_snapshot_at = now;
      heap_snapshots_written = d.heap_snapshots_written + 1;
    }
    else d

unfoldable pub is_any_memory_diagnostic_enabled : Env → Bool
is_any_memory_diagnostic_enabled env =
    is_env_flag_enabled env (text "STASHARR_INDEXING_MEMORY_LOG")
    || is_env_flag_enabled env (text "STASHARR_INDEXING_GC_LOG")
    || is_env_flag_enabled env (text "STASHARR_INDEXING_HEAP_SNAPSHOT")

-- What the diagnostics keep of a completion; the log lines are left out.
unfoldable pub log_job_completion :
    Env → ℕ → (heap_used : ℕ) → (gc_available written : Bool) → Diagnostics → Diagnostics
log_job_completion env now heap_used gc_available written d =
    if not (is_any_memory_diagnostic_enabled env)
    then d
    else maybe_write_heap_snapshot env now heap_used written
        (maybe_log_gc_sample env now gc_available d)
