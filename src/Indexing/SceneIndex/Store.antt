-- ===== src/Indexing/SceneIndex/Store.antt =====
-- The two tables that the index is kept in, and the summary made from a recount of the rows:
-- apps/sp-api/src/indexing/indexing.service.ts. The database and the order of `localeCompare` are
-- parameters.
use stasharr_portal.Prelude.{
  ℕ, ◌+◌, Bool, true, false, Option, none, some, List, leb, if◌then◌else◌, any, ◌≡◌,
}
use stasharr_portal.Prelude.Text.{Text, text, eq_text, includes, to_lower}
use stasharr_portal.Prelude.Int.{pos}
use stasharr_portal.Database.{Table}
use stasharr_portal.Database.Counts.{CountedTable}
use stasharr_portal.SceneStatus.{SceneState}
use stasharr_portal.Indexing.SyncState.{Thrown, an_error}
use stasharr_portal.Indexing.SceneIndex.{SceneIndexRow, pending, hydrated, failed_retryable}
use stasharr_portal.Indexing.SceneIndex.Summary.{
  SceneIndexSummary, has_lifecycle, has_metadata_state,
}

unfoldable pub is_deadlock_error : Thrown → Bool
is_deadlock_error (an_error stack message) = includes (text "deadlock detected") (to_lower message)
is_deadlock_error _ = false

-- What the service is given: the tables, the `lastSyncedAt` and `updatedAt` of the row updated
-- last, `localeCompare(…) <= 0`, and the error of an `update` whose row is not there, which does not
-- speak of a deadlock.
pub record IndexDatabase : Type 1 where
  pub scenes : CountedTable Text SceneIndexRow
  pub newest_row : scenes.table.Rows → Option (Option ℕ × ℕ)
  pub summaries : Table Text SceneIndexSummary
  pub locale_le : Text → Text → Bool
  pub record_not_found : Thrown
  pub record_not_found_lem : is_deadlock_error record_not_found ≡ false

pub record Store (db : IndexDatabase) : Type 0 where
  pub scene_rows : db.scenes.table.Rows
  pub summary_rows : db.summaries.Rows
  pub next_metadata_backfill_check_at : Option ℕ

abbrev pub scene_index_summary_key : Text
scene_index_summary_key = text "GLOBAL"

abbrev pub the_summary : (db : IndexDatabase) → Store db → Option SceneIndexSummary
the_summary db store = db.summaries.find_unique scene_index_summary_key store.summary_rows

abbrev pub the_row : (db : IndexDatabase) → Store db → Text → Option SceneIndexRow
the_row db store id = db.scenes.table.find_unique id store.scene_rows

-- `newestRow?.lastSyncedAt ?? newestRow?.updatedAt ?? null`
abbrev last_write : Option (Option ℕ × ℕ) → Option ℕ
last_write none = none
last_write (some (none, updated_at)) = some updated_at
last_write (some (some last_synced_at, _)) = some last_synced_at

unfoldable pub recount : (db : IndexDatabase) → db.scenes.table.Rows → SceneIndexSummary
recount db rows =
    let requested : ℕ = db.scenes.count (has_lifecycle SceneState.requested) rows in
    let downloading : ℕ = db.scenes.count (has_lifecycle SceneState.downloading) rows in
    let import_pending : ℕ = db.scenes.count (has_lifecycle SceneState.import_pending) rows in
    let failed : ℕ = db.scenes.count (has_lifecycle SceneState.failed) rows in
    record {
      indexed_scenes = pos (db.scenes.count (λ _. true) rows);
      acquisition_tracked_scenes = pos (requested + downloading + import_pending + failed);
      requested_count = pos requested;
      downloading_count = pos downloading;
      import_pending_count = pos import_pending;
      failed_count = pos failed;
      metadata_pending_count = pos (db.scenes.count (has_metadata_state pending) rows);
      metadata_retryable_count = pos (db.scenes.count (has_metadata_state failed_retryable) rows);
      last_index_write_at = last_write (db.newest_row rows);
    }

unfoldable pub rebuild_scene_index_summary : (db : IndexDatabase) → Store db → Store db
rebuild_scene_index_summary db store =
    let summary : SceneIndexSummary = recount db store.scene_rows in
    record store {
      summary_rows =
          db.summaries.upsert scene_index_summary_key summary (λ _. summary) store.summary_rows;
    }

unfoldable pub ensure_scene_index_summary : (db : IndexDatabase) → Store db → Store db
ensure_scene_index_summary db store = elim (the_summary db store) [
  | none ↦ rebuild_scene_index_summary db store
  | some _ ↦ store
]

unfoldable pub should_hydrate_metadata_now : ℕ → Option SceneIndexRow → Bool
should_hydrate_metadata_now now none = true
should_hydrate_metadata_now now (some row) = elim row.metadata_hydration_state [
  | pending ↦ true
  | hydrated ↦ false
  | failed_retryable ↦ elim row.metadata_retry_after_at [ none ↦ true | some at ↦ leb at now ]
]

-- The check after a batch: forgotten where the batch has a row to hydrate.
abbrev pub kept_check : Option ℕ → Bool → Option ℕ
kept_check none to_hydrate = none
kept_check (some at) to_hydrate = if to_hydrate then none else some at

unfoldable pub invalidate_scheduled_metadata_backfill_check_if_needed :
    (db : IndexDatabase) → ℕ → List (Text × SceneIndexRow) → Store db → Store db
invalidate_scheduled_metadata_backfill_check_if_needed db now rows store = record store {
  next_metadata_backfill_check_at =
      kept_check store.next_metadata_backfill_check_at
        (any (λ r. should_hydrate_metadata_now now (some r.1)) rows);
}
