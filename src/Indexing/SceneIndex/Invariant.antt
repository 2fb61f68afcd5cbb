-- ===== src/Indexing/SceneIndex/Invariant.antt =====
-- What a call of `applySceneIndexPatches` leaves in the index, however the database treats its
-- transactions: apps/sp-api/src/indexing/indexing.service.ts.
use mathlib.Core.Option.{some-injective}
use stasharr_portal.Prelude.{
  ◌≡◌, refl, sym, ap, ◌∙◌, inl, inr, Option, List, Option-cases, ℕ, [], ◌∷◌, arith, length,
}
use stasharr_portal.Prelude.Text.{Text, eq_text}
use stasharr_portal.Prelude.Dict.{Dict}
use stasharr_portal.Indexing.SyncState.{Thrown}
use stasharr_portal.Indexing.SceneIndex.{SceneIndexPatch, SceneIndexRow}
use stasharr_portal.Indexing.SceneIndex.Merge.{
  Distinct, patch_for, merge_patches_by_stash_id, merge_patches_by_stash_id-Distinct,
}
use stasharr_portal.Indexing.SceneIndex.Store.{
  IndexDatabase, Store, the_row, the_summary, ensure_scene_index_summary,
  rebuild_scene_index_summary,
}
use stasharr_portal.Indexing.SceneIndex.Sound.{
  Sound, NotStale, ensure_scene_index_summary-Sound, Accurate,
}
use stasharr_portal.Indexing.SceneIndex.Committed.{Agree}
use stasharr_portal.Indexing.SceneIndex.Chunks.{
  flat, chunks_from-flat, sort_patches-Sorted, get-read_rows,
}
use stasharr_portal.Indexing.SceneIndex.Apply.{
  Queues, execute_chunks, read_rows, chunks_from, sort_patches, apply_merged,
  apply_scene_index_patches,
}
use stasharr_portal.Indexing.SceneIndex.Runs.{row_by, RowEnd, RunEnd, execute_chunks-RunEnd}
use mathlib.Core.Path.{subst}

module _ (db : IndexDatabase) where
  -- The map that is read before the first chunk is right on every patch.
  read_rows-Agree :
      (patches : List SceneIndexPatch) (store : Store db)
      → Agree db patches (read_rows db patches store.scene_rows) store
  unfolding Agree
  read_rows-Agree patches store j e = get-read_rows db patches store.scene_rows j ∙ rw e refl

  ensure-rows :
      (store : Store db) → (ensure_scene_index_summary db store).scene_rows ≡ store.scene_rows
  unfolding ensure_scene_index_summary rebuild_scene_index_summary
  ensure-rows store = elim (Option-cases (the_summary db store)) [
    | inl e ↦ rw (e, ensure_scene_index_summary) refl
    | inr (s, e) ↦ rw (e, ensure_scene_index_summary) refl
  ]

  Sound-NotStale : (store : Store db) → Sound db store → NotStale db store
  Sound-NotStale store (s, (there, accurate)) s' e =
      subst (Accurate db store.scene_rows) (some-injective s s' (sym there ∙ e)) accurate

  RowEnd-of_same :
      (queues : Queues) (patches : List SceneIndexPatch) (a b : Store db)
      (end : Store db × Option Thrown) (j : Text)
      → the_row db a j ≡ the_row db b j
      → RowEnd db queues patches a end j
      → RowEnd db queues patches b end j
  RowEnd-of_same queues patches a b end j same (inl h) =
      inl (h ∙ ap (row_by db queues j (patch_for j patches)) same)
  RowEnd-of_same queues patches a b end j same (inr (h, e)) = inr (h ∙ same, e)

  apply_merged-RowEnd :
      (now : ℕ) (outcomes : ℕ → ℕ → Option Thrown) (queues : Queues) (merged : List SceneIndexPatch)
      (store : Store db)
      → Distinct merged
      → NotStale db store
      → NotStale db (apply_merged db now outcomes queues merged store).0
        × ((j : Text)
            → RowEnd db queues merged store (apply_merged db now outcomes queues merged store) j)
  unfolding apply_merged
  apply_merged-RowEnd now outcomes queues [] store distinct sound = (sound, λ j. inl refl)
  apply_merged-RowEnd now outcomes queues (p ∷ patches) store distinct stale =
      let merged : List SceneIndexPatch = p ∷ patches in
      let ensured : Store db = ensure_scene_index_summary db store in
      let chunks : List (List SceneIndexPatch) = chunks_from db (length merged) merged in
      let existing : Dict Text SceneIndexRow = read_rows db merged ensured.scene_rows in
      let all : flat chunks ≡ merged = chunks_from-flat db (length merged) merged (omega arith) in
      let end : RunEnd db queues merged ensured
          (execute_chunks db now outcomes queues chunks existing ensured) =
        subst
          (λ ps.
            RunEnd db queues ps ensured
              (execute_chunks db now outcomes queues chunks existing ensured))
          all
          (execute_chunks-RunEnd db now outcomes queues chunks existing ensured
            (subst Distinct (sym all) distinct)
            (subst (λ ps. Agree db ps existing ensured) (sym all) (read_rows-Agree merged ensured))
            (ensure_scene_index_summary-Sound db store stale)) in
      (
        Sound-NotStale (execute_chunks db now outcomes queues chunks existing ensured).0 end.0,
        λ j.
            RowEnd-of_same queues merged ensured store
              (execute_chunks db now outcomes queues chunks existing ensured) j
              (ap (db.scenes.table.find_unique j) (ensure-rows store)) (end.1 j),
      )

-- The summary is never stale: if it counts the rows of the index rightly, or is not there, it
-- counts them rightly or is not there after any patches, whatever the database makes of each
-- attempt at each transaction.
pub apply_scene_index_patches-NotStale :
    (db : IndexDatabase) (now : ℕ) (outcomes : ℕ → ℕ → Option Thrown)
    (patches : List SceneIndexPatch) (queues : Queues) (store : Store db)
    → NotStale db store
    → NotStale db (apply_scene_index_patches db now outcomes patches queues store).0
unfolding apply_scene_index_patches
apply_scene_index_patches-NotStale db now outcomes patches queues store stale =
    (apply_merged-RowEnd db now outcomes queues
      (sort_patches db (merge_patches_by_stash_id patches)) store
      (sort_patches-Sorted db (merge_patches_by_stash_id patches)
        (merge_patches_by_stash_id-Distinct patches)).0
      stale).0

-- Each scene's row is afterwards the row built from the row before and the merged patch for the
-- scene, with its queue items, and is as it was where there is no patch for it; or the call ends
-- with an error and the row is as it was. The summary counts rightly, or is not there, before.
pub apply_scene_index_patches-RowEnd :
    (db : IndexDatabase) (now : ℕ) (outcomes : ℕ → ℕ → Option Thrown)
    (patches : List SceneIndexPatch) (queues : Queues) (store : Store db) (j : Text)
    → NotStale db store
    → RowEnd db queues
        (merge_patches_by_stash_id patches)
        store
        (apply_scene_index_patches db now outcomes patches queues store)
        j
unfolding apply_scene_index_patches
apply_scene_index_patches-RowEnd db now outcomes patches queues store j stale =
    let merged : List SceneIndexPatch = merge_patches_by_stash_id patches in
    let sorted : Distinct (sort_patches db merged)
        × ((i : Text) → patch_for i (sort_patches db merged) ≡ patch_for i merged) =
      sort_patches-Sorted db merged (merge_patches_by_stash_id-Distinct patches) in
    elim ((apply_merged-RowEnd db now outcomes queues (sort_patches db merged) store sorted.0
        stale).1
      j) [
        | inl h ↦ inl (h ∙ ap (λ o. row_by db queues j o (the_row db store j)) (sorted.1 j))
        | inr h ↦ inr h
      ]
