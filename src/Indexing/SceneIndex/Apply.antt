-- ===== src/Indexing/SceneIndex/Apply.antt =====
-- How patches reach the database: `applySceneIndexPatches` and `executePatchChunk` of
-- apps/sp-api/src/indexing/indexing.service.ts. What the database makes of each transaction is an
-- argument: none where it commits, and the error where it does not and is rolled back.
use stasharr_portal.Prelude.{
  ℕ, zero, suc, not, ◌||◌, Option, none, some, List, [], ◌∷◌, leb, if◌then◌else◌, length, take,
  drop,
}
use stasharr_portal.Prelude.Text.{Text, eq_text}
use stasharr_portal.Prelude.Dict.{Dict, get, put}
use stasharr_portal.SceneStatus.{QueueItem}
use stasharr_portal.Indexing.SyncState.{Thrown}
use stasharr_portal.Indexing.SceneIndex.{
  SceneIndexPatch, SceneIndexRow, build_scene_index_upsert_data,
}
use stasharr_portal.Indexing.SceneIndex.Merge.{merge_patches_by_stash_id}
use stasharr_portal.Indexing.SceneIndex.Summary.{
  SceneIndexSummary, build_scene_index_summary_delta, build_scene_index_summary_delta_update,
  has_summary_delta,
}
use stasharr_portal.Indexing.SceneIndex.Store.{
  IndexDatabase, Store, scene_index_summary_key, ensure_scene_index_summary, is_deadlock_error,
  invalidate_scheduled_metadata_backfill_check_if_needed,
}

-- `queueItemsByStashId?.get(stashId)`
abbrev pub Queues : Type 0
Queues = Option (Dict Text (List QueueItem))

abbrev pub queue_for : Queues → Text → Option (List QueueItem)
queue_for none id = none
queue_for (some m) id = get id m

-- The row that a patch makes, by what `existingByStashId` holds.
abbrev pub next_row : Dict Text SceneIndexRow → Queues → SceneIndexPatch → SceneIndexRow
next_row existing queues patch =
    build_scene_index_upsert_data (get patch.stash_id existing) patch
      (queue_for queues patch.stash_id)

unfoldable pub next_rows :
    Dict Text SceneIndexRow → Queues → List SceneIndexPatch → List (Text × SceneIndexRow)
next_rows existing queues [] = []
next_rows existing queues (patch ∷ chunk) =
    (patch.stash_id, next_row existing queues patch) ∷ next_rows existing queues chunk

-- `existingByStashId.set` for every row.
unfoldable pub set_rows :
    List (Text × SceneIndexRow) → Dict Text SceneIndexRow → Dict Text SceneIndexRow
set_rows [] existing = existing
set_rows ((id, row) ∷ rows) existing = set_rows rows (put id row existing)

module _ (db : IndexDatabase) where
  -- The upserts of the transaction.
  unfoldable pub upsert_rows :
      List (Text × SceneIndexRow) → db.scenes.table.Rows → db.scenes.table.Rows
  upsert_rows [] rows = rows
  upsert_rows ((id, row) ∷ next) rows =
      upsert_rows next (db.scenes.table.upsert id row (λ _. row) rows)

  -- The transaction, none where the summary to update is not there.
  unfoldable pub transaction :
      ℕ → List (Text × SceneIndexRow) → Dict Text SceneIndexRow → Store db → Option (Store db)
  transaction now next existing store =
      let delta : SceneIndexSummary = build_scene_index_summary_delta now next existing in
      let written : db.scenes.table.Rows = upsert_rows next store.scene_rows in
      if has_summary_delta delta
      then elim (db.summaries.update scene_index_summary_key
          (build_scene_index_summary_delta_update delta) store.summary_rows) [
            | none ↦ none
            | some summary_rows ↦
                some (record store { scene_rows = written; summary_rows = summary_rows })
          ]
      else some (record store { scene_rows = written })

  -- How a chunk ends: it returns, or it throws and leaves the database as it was.
  pub data Written : Type 0 where
    returned : Store db → Dict Text SceneIndexRow → Written
    thrown : Thrown → Written

  -- One pass of the loop of `executePatchChunk`, the `try` block.
  unfoldable pub attempt_chunk :
      ℕ
      → Option Thrown
      → Queues
      → List SceneIndexPatch
      → Dict Text SceneIndexRow
      → Store db
      → Written
  attempt_chunk now outcome queues chunk existing store =
      let next : List (Text × SceneIndexRow) = next_rows existing queues chunk in
      elim outcome [
        | some error ↦ thrown error
        | none ↦ elim (transaction now next existing store) [
          | none ↦ thrown db.record_not_found
          | some store' ↦
              returned (invalidate_scheduled_metadata_backfill_check_if_needed db now next store')
                (set_rows next existing)
        ]
      ]

  -- The `catch` block: another attempt after a deadlock, unless this was the last.
  abbrev pub after_pass : ℕ → Written → Written → Written
  after_pass attempt (returned store existing) retry = returned store existing
  after_pass attempt (thrown error) retry =
      if not (is_deadlock_error error) || leb 3 attempt then thrown error else retry

  -- The loop, on the attempts that are left, from one attempt on.
  unfoldable pub attempts_from :
      ℕ
      → ℕ
      → ℕ
      → (ℕ → Option Thrown)
      → Queues
      → List SceneIndexPatch
      → Dict Text SceneIndexRow
      → Store db
      → Written
  attempts_from zero attempt now outcome queues chunk existing store = returned store existing
  attempts_from (suc left) attempt now outcome queues chunk existing store =
      let retry : Written =
        attempts_from left (suc attempt) now outcome queues chunk existing store in
      after_pass attempt (attempt_chunk now (outcome attempt) queues chunk existing store) retry

  unfoldable pub execute_patch_chunk :
      ℕ
      → (ℕ → Option Thrown)
      → Queues
      → List SceneIndexPatch
      → Dict Text SceneIndexRow
      → Store db
      → Written
  execute_patch_chunk now outcome queues chunk existing store =
      attempts_from 3 1 now outcome queues chunk existing store

  -- The loop over the chunks; the outcomes are those of the first chunk, then the others'.
  unfoldable pub execute_chunks :
      ℕ
      → (ℕ → ℕ → Option Thrown)
      → Queues
      → List (List SceneIndexPatch)
      → Dict Text SceneIndexRow
      → Store db
      → Store db × Option Thrown
  execute_chunks now outcomes queues [] existing store = (store, none)
  execute_chunks now outcomes queues (chunk ∷ chunks) existing store =
      elim (execute_patch_chunk now (outcomes 0) queues chunk existing store) [
        | thrown error ↦ (store, some error)
        | returned store' existing' ↦
            execute_chunks now (λ n. outcomes (suc n)) queues chunks existing' store'
      ]

  -- The rows that `findMany` finds by their ids, as the map by id.
  unfoldable pub read_rows : List SceneIndexPatch → db.scenes.table.Rows → Dict Text SceneIndexRow
  read_rows [] rows = []
  read_rows (patch ∷ patches) rows = elim (db.scenes.table.find_unique patch.stash_id rows) [
    | none ↦ read_rows patches rows
    | some row ↦ put patch.stash_id row (read_rows patches rows)
  ]

  -- `sort`, which is stable.
  unfoldable pub insert_patch : SceneIndexPatch → List SceneIndexPatch → List SceneIndexPatch
  insert_patch patch [] = patch ∷ []
  insert_patch patch (other ∷ patches) =
      if db.locale_le patch.stash_id other.stash_id
      then patch ∷ other ∷ patches
      else other ∷ insert_patch patch patches

  unfoldable pub sort_patches : List SceneIndexPatch → List SceneIndexPatch
  sort_patches [] = []
  sort_patches (patch ∷ patches) = insert_patch patch (sort_patches patches)

  -- The slices of 100 that the loop takes, on fuel.
  unfoldable pub chunks_from : ℕ → List SceneIndexPatch → List (List SceneIndexPatch)
  chunks_from zero patches = []
  chunks_from (suc fuel) [] = []
  chunks_from (suc fuel) (patch ∷ patches) =
      take 100 (patch ∷ patches) ∷ chunks_from fuel (drop 100 (patch ∷ patches))

  -- What follows the sort.
  unfoldable pub apply_merged :
      ℕ
      → (ℕ → ℕ → Option Thrown)
      → Queues
      → List SceneIndexPatch
      → Store db
      → Store db × Option Thrown
  apply_merged now outcomes queues [] store = (store, none)
  apply_merged now outcomes queues (patch ∷ patches) store =
      let merged : List SceneIndexPatch = patch ∷ patches in
      let ensured : Store db = ensure_scene_index_summary db store in
      execute_chunks now outcomes queues (chunks_from (length merged) merged)
        (read_rows merged ensured.scene_rows) ensured

  unfoldable pub apply_scene_index_patches :
      ℕ
      → (ℕ → ℕ → Option Thrown)
      → List SceneIndexPatch
      → Queues
      → Store db
      → Store db × Option Thrown
  apply_scene_index_patches now outcomes patches queues store =
      apply_merged now outcomes queues (sort_patches (merge_patches_by_stash_id patches)) store
