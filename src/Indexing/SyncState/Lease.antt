-- ===== src/Indexing/SyncState/Lease.antt =====
-- One call of `tryAcquireLease`, `recordSuccess` or `markFailure`.
use mathlib.Core.Option
use stasharr_portal.Prelude.Text.{Text, text_eq, eq_text, text_eq_refl}
use stasharr_portal.Prelude.{
  ℕ, ◌≡◌, Option, none, some, if◌then◌else◌, ◌≤◌, refl, arith, length, take, length-append,
  length-take, ◌+◌, inl, inr, ◌++◌, ltb, Bool-cases, ap, Option-cases,
}
use stasharr_portal.Database.{Table, upserted}
use stasharr_portal.Indexing.SyncState.{
  SyncState, default_state, lease_free, claimed, SuccessInput, succeeded_row, created_row, Thrown,
  failed_row, try_acquire_lease, record_success, mark_failure, serialize_error, truncated_mark,
  truncate, max_error_length, an_error, stringified, undefined_json, not_serializable,
}

-- The row of a job, or the row that `upsert` makes for a new one.
abbrev pub row_or_default : Option SyncState → SyncState
row_or_default none = default_state
row_or_default (some row) = row

upserted-default :
    (old : Option SyncState) → upserted default_state (λ row. row) old ≡ row_or_default old
upserted-default none = refl
upserted-default (some row) = refl

module _ (table : Table Text SyncState) (job : Text) (now lease_ms : ℕ) (db : table.Rows) where
  open table use {
    find_unique, upsert, update_many, find-upsert, find-update_many, count-update_many,
  }

  ensured-row :
      (j : Text)
      → find_unique j (upsert job default_state (λ row. row) db)
        ≡ (if text_eq job j then some (row_or_default (find_unique job db)) else find_unique j db)
  ensured-row j = rw (find-upsert job j default_state (λ row. row) db, upserted-default)

  -- The lease is given exactly when it is free at that time. Then the job's row is the old one with
  -- the lease, the status and the times of the claim; otherwise it is as it was (made, if it was not
  -- there). No other job's row changes in either case.
  pub try_acquire_lease_lem :
      (j : Text)
      → let row = row_or_default (find_unique job db) in
        ((try_acquire_lease table job now lease_ms db).1
          ≡ (if lease_free now row then some (claimed now lease_ms row) else none))
        × (find_unique j (try_acquire_lease table job now lease_ms db).0 ≡ (
            if text_eq job j
            then some (if lease_free now row then claimed now lease_ms row else row)
            else find_unique j db))
  unfolding try_acquire_lease
  try_acquire_lease_lem j =
      let ensured = upsert job default_state (λ row. row) db in
      let p = lease_free now in
      let change = claimed now lease_ms in
      let at_job : find_unique job ensured ≡ some (row_or_default (find_unique job db)) =
        rw (ensured-row job, text_eq_refl job) in
      rw
        (
          count-update_many job p change ensured,
          find-update_many job job p change ensured,
          find-update_many job j p change ensured,
          at_job,
          ensured-row j,
          text_eq_refl job,
        )
        (ground arith)

-- What `recordSuccess` leaves at its job.
abbrev pub success_row : ℕ → SuccessInput → Option SyncState → SyncState
success_row now input none = created_row now input
success_row now input (some row) = succeeded_row now input row

upserted-success :
    (now : ℕ) (input : SuccessInput) (old : Option SyncState)
    → upserted (created_row now input) (succeeded_row now input) old ≡ success_row now input old
upserted-success now input none = refl
upserted-success now input (some row) = refl

module _ (table : Table Text SyncState) (job : Text) (now : ℕ) (db : table.Rows) where
  open table use {find_unique, find-upsert}

  pub record_success-row :
      (input : SuccessInput) (j : Text)
      → find_unique j (record_success table job now input db) ≡ (
          if text_eq job j
          then some (success_row now input (find_unique job db))
          else find_unique j db)
  unfolding record_success
  record_success-row input j =
      rw (find-upsert job j (created_row now input) (succeeded_row now input) db, upserted-success)

  -- `markFailure` throws exactly when the job has no row.
  pub mark_failure-row :
      (error : Thrown) (j : Text)
      → Option.map (find_unique j) (mark_failure table job now error db)
        ≡ (elim (find_unique job db) [
          | none ↦ none
          | some row ↦
              some (if text_eq job j then some (failed_row now error row) else find_unique j db)
        ])
  unfolding mark_failure
  mark_failure-row error j = table.find-update job j (failed_row now error) db

  pub mark_failure-none :
      (error : Thrown) → find_unique job db ≡ none → mark_failure table job now error db ≡ none
  mark_failure-none error lost = elim (Option-cases (mark_failure table job now error db)) [
    | inl e ↦ e
    | inr (db', e) ↦ cc (mark_failure-row error job, ap (Option.map (find_unique job)) e, lost)
  ]

  pub mark_failure-some :
      (error : Thrown) (row : SyncState)
      → find_unique job db ≡ some row
      → (db' : table.Rows) × (mark_failure table job now error db ≡ some db')
        × (find_unique job db' ≡ some (failed_row now error row))
  mark_failure-some error row r = elim (Option-cases (mark_failure table job now error db)) [
    | inl lost ↦ cc (mark_failure-row error job, ap (Option.map (find_unique job)) lost, r)
    | inr (db', marked) ↦
        (db', marked, ground (arith, mark_failure-row error job, text_eq_refl job))
  ]

cut-bounded :
    (n : ℕ) (s mark : Text)
    → length (if ltb n (length s) then take n s ++ mark else s) ≤ n + length mark
cut-bounded n s mark = elim (Bool-cases (ltb n (length s))) [
  | inl long ↦ rw long (omega (arith, length-append (take n s) mark, length-take n s))
  | inr short ↦ rw short (ground arith)
]

truncate-bounded : (s : Text) → length (truncate s) ≤ 4014
unfolding truncate
truncate-bounded s = cut-bounded max_error_length s truncated_mark

-- The recorded error is at most 4000 units of the text, and a mark of 14 more.
pub serialize_error-bounded : (error : Thrown) → length (serialize_error error) ≤ 4014
unfolding serialize_error
serialize_error-bounded (an_error none message) = truncate-bounded message
serialize_error-bounded (an_error (some stack) message) = truncate-bounded stack
serialize_error-bounded (stringified json) = ground (arith, truncate-bounded json)
serialize_error-bounded undefined_json = omega arith
serialize_error-bounded not_serializable = omega arith
