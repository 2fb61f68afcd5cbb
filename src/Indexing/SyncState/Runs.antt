-- ===== src/Indexing/SyncState/Runs.antt =====
-- Whole runs of `runWithLease`: on each way that a run can go, what it gives and what the table
-- holds afterwards. The handler, and whatever else changes the table while it runs, is arbitrary.
use stasharr_portal.Prelude.Text.{Text, text_eq, eq_text, text_eq_refl}
use stasharr_portal.Prelude.{
  ℕ, ◌-◌, ◌≡◌, ◌⊎◌, inl, inr, true, false, some, if◌then◌else◌, refl, ◌∙◌, none, Option-cases,
  arith, ◌≤◌, ◌<◌, ◌≢◌, Option, Bool-cases, leb,
}
use mathlib.Core.Option
use stasharr_portal.Database.{Table}
use stasharr_portal.Indexing.SyncState.{
  SuccessResult, row_missing, succeeded, failed, SyncState, lease_free, claimed, LeaseConfig,
  success_input, Ran, skipped, returned, threw, Thrown, failed_row, try_acquire_lease, finish_run,
  run_with_lease, succeeded, failed, serialize_error, SuccessInput, record_success,
}
use stasharr_portal.Indexing.SyncState.Lease.{
  mark_failure-none, mark_failure-some, row_or_default, try_acquire_lease_lem, record_success-row,
  success_row,
}

module _ (table : Table Text SyncState) {T : Type 0} (config : LeaseConfig T)
    (claimed_at started ended : ℕ) (handler : table.Rows → table.Rows × (T ⊎ Thrown))
    (db : table.Rows) where
  open table use {Rows, find_unique}

  abbrev pub run : Rows × Ran T
  run = run_with_lease table config claimed_at started ended handler db

  abbrev pub acquired : Rows
  acquired = (try_acquire_lease table config.job_name claimed_at config.lease_ms db).0

  abbrev pub old_row : SyncState
  old_row = row_or_default (find_unique config.job_name db)

  abbrev job : Text
  job = config.job_name

  abbrev ms : ℕ
  ms = config.lease_ms

  acquires :
      (j : Text)
      → ((try_acquire_lease table job claimed_at ms db).1
          ≡ (if lease_free claimed_at old_row then some (claimed claimed_at ms old_row) else none))
        × (find_unique j acquired ≡ (
            if text_eq job j
            then some
                (if lease_free claimed_at old_row then claimed claimed_at ms old_row else old_row)
            else find_unique j db))
  acquires j = try_acquire_lease_lem table job claimed_at ms db j

  obtained :
      lease_free claimed_at old_row ≡ true
      → (try_acquire_lease table job claimed_at ms db).1 ≡ some (claimed claimed_at ms old_row)
  obtained h = (acquires job).0 ∙ rw h

  -- Another run holds the lease when the call claims it, or none does.
  abbrev pub Held : Type 0
  Held = (until : ℕ) × ((old_row.lease_until ≡ some until) × (claimed_at < until))

  abbrev pub Passed : Option ℕ → Type 0
  Passed none = Unit
  Passed (some until) = until ≤ claimed_at

  abbrev pub NotHeld : Type 0
  NotHeld = Passed old_row.lease_until

  -- The next claim is not refused, whenever it comes.
  abbrev pub Released : Rows → Type 0
  Released rows = (t length_ms : ℕ) → (try_acquire_lease table job t length_ms rows).1 ≢ none

  -- The time of the run, where there is no `onSuccess`.
  abbrev pub Timed : Option (T → ℕ → SuccessResult) → SyncState → Type 0
  Timed none row = row.last_duration_ms ≡ some (ended - started)
  Timed (some _) row = Unit

  pub record Succeeded (after : Rows) : Type 0 where
    pub row : SyncState
    pub found : find_unique job after ≡ some row
    pub status : row.status ≡ succeeded
    pub finished_at : row.finished_at ≡ some ended
    pub last_success_at : row.last_success_at ≡ some ended
    pub last_error : row.last_error ≡ none
    pub duration : Timed config.on_success row
    pub released : Released after

  -- `later` is the table at the end of the handler.
  pub record Failed (error : Thrown) (later after : Rows) : Type 0 where
    pub row : SyncState
    pub found : find_unique job after ≡ some row
    pub status : row.status ≡ failed
    pub finished_at : row.finished_at ≡ some ended
    pub last_error : row.last_error ≡ some (serialize_error error)
    pub last_success_at :
        Option.map (λ r. r.last_success_at) (find_unique job later) ≡ some row.last_success_at
    pub released : Released after

  -- What each outcome of a run shows.
  abbrev pub Outcome : Rows × Ran T → Type 0
  Outcome (after, skipped) = Held × (find_unique job after ≡ some old_row)
  Outcome (after, returned result) =
      NotHeld × ((later : Rows) × ((handler acquired ≡ (later, inl result)) × Succeeded after))
  Outcome (after, threw error) =
      NotHeld
      × ((later : Rows) × ((handler acquired ≡ (later, inr error)) × Failed error later after))
  Outcome (after, row_missing) =
      NotHeld
      × ((error : Thrown) × ((handler acquired ≡ (after, inr error))
            × (find_unique job after ≡ none)))

  lease_free-Released :
      (rows : Rows) (row : SyncState)
      → find_unique job rows ≡ some row
      → row.lease_until ≡ none
      → Released rows
  lease_free-Released rows row found free t length_ms refused =
      let (given, _) = try_acquire_lease_lem table job t length_ms rows job in
      cc (refused, rw (found, free, lease_free) at given)

  success_row-Timed :
      (on_success : Option (T → ℕ → SuccessResult)) (result : T) (old : Option SyncState)
      → Timed on_success (success_row ended (success_input on_success result (ended - started)) old)
  success_row-Timed none result none = refl
  success_row-Timed none result (some row) = refl
  success_row-Timed (some f) result old = tt

  success_row-Succeeded :
      (result : T) (after : Rows) (old : Option SyncState)
      → find_unique job after
        ≡ some (success_row ended (success_input config.on_success result (ended - started)) old)
      → Succeeded after
  success_row-Succeeded result after none found = record {
    row = _;
    found = found;
    status = refl;
    finished_at = refl;
    last_success_at = refl;
    last_error = refl;
    duration = success_row-Timed config.on_success result none;
    released = lease_free-Released after _ found refl;
  }
  success_row-Succeeded result after (some row) found = record {
    row = _;
    found = found;
    status = refl;
    finished_at = refl;
    last_success_at = refl;
    last_error = refl;
    duration = success_row-Timed config.on_success result (some row);
    released = lease_free-Released after _ found refl;
  }

  success-Succeeded :
      (later : Rows) (result : T)
      → Succeeded (finish_run table config started ended later (inl result)).0
  unfolding finish_run
  success-Succeeded later result =
      let input : SuccessInput = success_input config.on_success result (ended - started) in
      success_row-Succeeded result (record_success table job ended input later)
        (find_unique job later)
        (record_success-row table job ended later input job ∙ rw (text_eq_refl job) refl)

  failure-Outcome :
      (later : Rows) (error : Thrown)
      → NotHeld
      → handler acquired ≡ (later, inr error)
      → Outcome (finish_run table config started ended later (inr error))
  unfolding finish_run
  failure-Outcome later error free h = elim (Option-cases (find_unique job later)) [
    | inl lost ↦
        rw (mark_failure-none table job ended later error lost, finish_run)
          (free, (error, (h, lost)))
    | inr (row, r) ↦
        let (db', marked, at_job) = mark_failure-some table job ended later error row r in
        rw (marked, finish_run)
          (
            free,
            (
              later,
              (
                h,
                record {
                  row = failed_row ended error row;
                  found = at_job;
                  status = refl;
                  finished_at = refl;
                  last_error = refl;
                  last_success_at = rw r refl;
                  released = lease_free-Released db' (failed_row ended error row) at_job refl;
                },
              ),
            ),
          )
  ]

  finish_run-Outcome :
      (later : Rows) (end : T ⊎ Thrown)
      → NotHeld
      → handler acquired ≡ (later, end)
      → Outcome (finish_run table config started ended later end)
  unfolding finish_run
  finish_run-Outcome later (inl result) free h =
      (free, (later, (h, success-Succeeded later result)))
  finish_run-Outcome later (inr error) free h = failure-Outcome later error free h

  free-Passed :
      (lease : Option ℕ)
      → (elim lease [ none ↦ true | some until ↦ leb until claimed_at ]) ≡ true
      → Passed lease
  free-Passed none h = tt
  free-Passed (some until) h = ground (arith, h)

  not_free-Held : lease_free claimed_at old_row ≡ false → Held
  not_free-Held held = elim (Option-cases old_row.lease_until) [
    | inl e ↦ cc (rw (e, lease_free) at held)
    | inr (until, e) ↦ (until, (e, ground (arith, rw (e, lease_free) at held)))
  ]

  -- A run is skipped exactly while another one holds the lease, and leaves the job's row as it was.
  -- A run that is not skipped ends as its handler does. Where that gives a value, the row says that
  -- the job succeeded then, with the time it took where there is no onSuccess; where it throws, that
  -- it failed then, with the error and the last success as before; and after both the next claim is
  -- given, whenever it comes. Only where the handler throws and the row is gone is neither written.
  pub run_with_lease-Outcome : Outcome run
  unfolding run_with_lease
  run_with_lease-Outcome = elim (Bool-cases (lease_free claimed_at old_row)) [
    | inl free ↦
        rw (obtained free, run_with_lease)
          (finish_run-Outcome (handler acquired).0 (handler acquired).1
            (free-Passed old_row.lease_until free) refl)
    | inr held ↦
        let (given, left) = acquires job in
        let refused : (try_acquire_lease table job claimed_at ms db).1 ≡ none = given ∙ rw held in
        rw (refused, run_with_lease) (not_free-Held held, left ∙ rw (held, text_eq_refl job))
  ]
