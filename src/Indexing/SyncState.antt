-- ===== src/Indexing/SyncState.antt =====
-- The state of the background jobs and the lease that keeps two runs of one job apart,
-- apps/sp-api/src/indexing/sync-state.service.ts, over the `SyncState` table as a parameter.
-- `new Date()` and `Date.now()` are arguments.
use stasharr_portal.Prelude.Text.{Text, text, eq_text, is_empty}
use stasharr_portal.Prelude.{
  ℕ, ◌+◌, ◌-◌, ◌⊎◌, inl, inr, Bool, true, Option, none, some, ◌++◌, ltb, leb, ◌==◌, if◌then◌else◌,
  length, take,
}
pub mod Lease
pub mod Runs
pub mod Exclusion
mod Tests
use stasharr_portal.Database.{Table}

-- Prisma's `SyncJobStatus`.
pub data SyncJobStatus : Type 0 where
  idle running succeeded failed : SyncJobStatus

-- A row of the table, without its key `jobName`.
pub record SyncState : Type 0 where
  pub status : SyncJobStatus
  pub started_at : Option ℕ
  pub finished_at : Option ℕ
  pub lease_until : Option ℕ
  pub cursor : Option Text
  pub last_error : Option Text
  pub last_success_at : Option ℕ
  pub last_duration_ms : Option ℕ
  pub last_processed_count : Option ℕ
  pub last_updated_count : Option ℕ
  pub last_run_reason : Option Text

-- The row that the schema's defaults make.
abbrev pub default_state : SyncState
default_state = record {
  status = idle;
  started_at = none;
  finished_at = none;
  lease_until = none;
  cursor = none;
  last_error = none;
  last_success_at = none;
  last_duration_ms = none;
  last_processed_count = none;
  last_updated_count = none;
  last_run_reason = none;
}

-- `OR: [{ leaseUntil: null }, { leaseUntil: { lte: now } }]`
abbrev pub lease_free : ℕ → SyncState → Bool
lease_free now row = elim row.lease_until [ none ↦ true | some t ↦ leb t now ]

abbrev pub claimed : ℕ → ℕ → SyncState → SyncState
claimed now lease_ms row = record row {
  status = running;
  started_at = some now;
  finished_at = none;
  lease_until = some (now + lease_ms);
  last_error = none;
}

-- `SyncStateSuccessInput`: a field is `none` where it is undefined, `some none` where it is null.
pub record SuccessInput : Type 0 where
  pub cursor : Option (Option Text)
  pub processed_count : Option (Option ℕ)
  pub updated_count : Option (Option ℕ)
  pub duration_ms : Option (Option ℕ)
  pub run_reason : Option (Option Text)

abbrev pub given {ℓ} : {A : Type ℓ} → Option (Option A) → Option A → Option A
given none old = old
given (some new) old = new

-- `data`, the update of a row by `recordSuccess`.
abbrev pub succeeded_row : ℕ → SuccessInput → SyncState → SyncState
succeeded_row now input row = record row {
  status = succeeded;
  finished_at = some now;
  lease_until = none;
  cursor = given input.cursor row.cursor;
  last_error = none;
  last_success_at = some now;
  last_duration_ms = given input.duration_ms row.last_duration_ms;
  last_processed_count = given input.processed_count row.last_processed_count;
  last_updated_count = given input.updated_count row.last_updated_count;
  last_run_reason = given input.run_reason row.last_run_reason;
}

-- `create`, the row that `recordSuccess` makes where there is none.
abbrev pub created_row : ℕ → SuccessInput → SyncState
created_row now input = record {
  status = succeeded;
  started_at = none;
  finished_at = some now;
  lease_until = none;
  cursor = given input.cursor none;
  last_error = none;
  last_success_at = some now;
  last_duration_ms = given input.duration_ms none;
  last_processed_count = given input.processed_count none;
  last_updated_count = given input.updated_count none;
  last_run_reason = given input.run_reason none;
}

-- A thrown value: an `Error`, or anything else by what `JSON.stringify` makes of it, which is
-- undefined for some values and an exception for others.
pub data Thrown : Type 0 where
  an_error : (stack : Option Text) (message : Text) → Thrown
  stringified : Text → Thrown
  undefined_json : Thrown
  not_serializable : Thrown

abbrev pub truncated_mark : Text
truncated_mark = text "...(truncated)"

abbrev pub max_error_length : ℕ
max_error_length = 4000

truncate : Text → Text
truncate s =
    if ltb max_error_length (length s) then take max_error_length s ++ truncated_mark else s

unfoldable pub serialize_error : Thrown → Text
unfolding truncate
serialize_error (an_error none message) = truncate message
serialize_error (an_error (some stack) message) = truncate stack
serialize_error (stringified json) = if is_empty json then text "Unknown error" else truncate json
serialize_error undefined_json = text "Unknown error"
serialize_error not_serializable = text "Unknown error"

abbrev pub failed_row : ℕ → Thrown → SyncState → SyncState
failed_row now error row = record row {
  status = failed;
  finished_at = some now;
  lease_until = none;
  last_error = some (serialize_error error);
}

-- A property of an object: not there, or there, undefined (`none`) or with a value.
pub data Property (A : Type 0) : Type 0 where
  absent : Property A
  present : Option A → Property A

-- What `onSuccess` gives; of `durationMs` it matters whether it is there.
pub record SuccessResult : Type 0 where
  pub cursor : Option (Option Text)
  pub processed_count : Option (Option ℕ)
  pub updated_count : Option (Option ℕ)
  pub duration_ms : Property (Option ℕ)
  pub run_reason : Option (Option Text)

-- The options of `runWithLease`.
pub record LeaseConfig (T : Type 0) : Type 0 where
  pub job_name : Text
  pub lease_ms : ℕ
  pub on_success : Option (T → ℕ → SuccessResult)

-- What `runWithLease` does: null, the handler's value, or the handler's exception. Where the row
-- has gone, `markFailure` throws its own.
pub data Ran (T : Type 0) : Type 0 where
  skipped : Ran T
  returned : T → Ran T
  threw : Thrown → Ran T
  row_missing : Ran T

-- `{ durationMs, ...(config.onSuccess?.(result, { durationMs }) ?? {}) }`
abbrev pub spread_duration : ℕ → Property (Option ℕ) → Option (Option ℕ)
spread_duration ms absent = some (some ms)
spread_duration ms (present duration) = duration

abbrev pub spread_result : ℕ → SuccessResult → SuccessInput
spread_result ms given = record {
  cursor = given.cursor;
  processed_count = given.processed_count;
  updated_count = given.updated_count;
  duration_ms = spread_duration ms given.duration_ms;
  run_reason = given.run_reason;
}

abbrev pub success_input : {T : Type 0} → Option (T → ℕ → SuccessResult) → T → ℕ → SuccessInput
success_input none result ms = record {
  cursor = none;
  processed_count = none;
  updated_count = none;
  duration_ms = some (some ms);
  run_reason = none;
}
success_input (some f) result ms = spread_result ms (f result ms)

module _ (table : Table Text SyncState) where
  open table use {Rows, find_unique, upsert, update, update_many}

  unfoldable pub try_acquire_lease : Text → ℕ → ℕ → Rows → Rows × Option SyncState
  try_acquire_lease job now lease_ms db =
      let ensured = upsert job default_state (λ row. row) db in
      let (claimed_db, count) = update_many job (lease_free now) (claimed now lease_ms) ensured in
      (claimed_db, if count == 0 then none else find_unique job claimed_db)

  unfoldable pub record_success : Text → ℕ → SuccessInput → Rows → Rows
  record_success job now input db = upsert job (created_row now input) (succeeded_row now input) db

  -- `none` where the row is not there and `update` throws.
  unfoldable pub mark_failure : Text → ℕ → Thrown → Rows → Option Rows
  mark_failure job now error db = update job (failed_row now error) db

  -- The handler's end: its value or its exception, and the table as it then stands.
  finish_run : {T : Type 0} → LeaseConfig T → ℕ → ℕ → Rows → T ⊎ Thrown → Rows × Ran T
  finish_run config started ended db (inl result) = (
    record_success config.job_name ended (success_input config.on_success result (ended - started))
        db,
    returned result,
  )
  finish_run config started ended db (inr error) =
      elim (mark_failure config.job_name ended error db) [
        | none ↦ (db, row_missing)
        | some db' ↦ (db', threw error)
      ]

  -- `claimed_at`, `started` and `ended` are the readings of the clock; `handler` says how the run
  -- ends and what the table is by then.
  unfoldable pub run_with_lease :
      {T : Type 0}
      → LeaseConfig T
      → (claimed_at started ended : ℕ) → (Rows → Rows × (T ⊎ Thrown))
      → Rows
      → Rows × Ran T
  unfolding finish_run
  run_with_lease config claimed_at started ended handler db =
      let (db', lease) = try_acquire_lease config.job_name claimed_at config.lease_ms db in
      elim lease [
        | none ↦ (db', skipped)
        | some _ ↦ let (later, end) = handler db' in finish_run config started ended later end
      ]
