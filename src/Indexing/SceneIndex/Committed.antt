-- ===== src/Indexing/SceneIndex/Committed.antt =====
-- What a chunk that the database commits leaves behind, apps/sp-api/src/indexing/indexing.service.ts.
use stasharr_portal.Prelude.{
  ℕ, ◌≡◌, refl, ◌∙◌, true, some, List, [], ◌∷◌, if◌then◌else◌, is_some, ap, arith, none, sym, inl,
  inr, Option-cases,
}
use stasharr_portal.Prelude.Text.{Text, eq_text, text_eq, text_eq_refl}
use stasharr_portal.Prelude.Dict.{Dict, get}
use stasharr_portal.Database.Updates.{update_found}
use stasharr_portal.Indexing.SceneIndex.{SceneIndexPatch, SceneIndexRow}
use stasharr_portal.Indexing.SceneIndex.Merge.{Distinct, patch_for}
use stasharr_portal.Indexing.SceneIndex.Summary.{
  SceneIndexSummary, add_row, add_rows, build_scene_index_summary_delta,
  build_scene_index_summary_delta_update, has_summary_delta, zero_delta,
}
use stasharr_portal.Indexing.SceneIndex.Store.{
  IndexDatabase, Store, the_row, scene_index_summary_key,
  invalidate_scheduled_metadata_backfill_check_if_needed,
}
use stasharr_portal.Indexing.SceneIndex.Batch.{
  Unique, over, find-upsert_rows, get-next_rows, next_rows-Unique,
}
use stasharr_portal.Indexing.SceneIndex.Sound.{Sound, upsert_rows-Accurate}
use stasharr_portal.Indexing.SceneIndex.Apply.{
  Queues, next_row, next_rows, set_rows, upsert_rows, transaction, returned, attempt_chunk,
}
use mathlib.Core.Option

add_rows-last_index_write_at :
    (existing : Dict Text SceneIndexRow) (delta : SceneIndexSummary)
    (rows : List (Text × SceneIndexRow))
    → (add_rows existing delta rows).last_index_write_at ≡ delta.last_index_write_at
unfolding add_rows add_row
add_rows-last_index_write_at existing delta [] = refl
add_rows-last_index_write_at existing delta ((id, row) ∷ rows) =
    add_rows-last_index_write_at existing (add_row delta row (get id existing)) rows

has_summary_delta_of_date :
    (delta : SceneIndexSummary)
    → is_some delta.last_index_write_at ≡ true
    → has_summary_delta delta ≡ true
unfolding has_summary_delta
has_summary_delta_of_date delta h = ground (arith, h)

-- A batch that is not empty always moves the summary, for it dates the write.
has_summary_delta_of_rows :
    (now : ℕ) (r : Text × SceneIndexRow) (rows : List (Text × SceneIndexRow))
    (existing : Dict Text SceneIndexRow)
    → has_summary_delta (build_scene_index_summary_delta now (r ∷ rows) existing) ≡ true
unfolding build_scene_index_summary_delta
has_summary_delta_of_rows now r rows existing =
    has_summary_delta_of_date (build_scene_index_summary_delta now (r ∷ rows) existing)
      (ap is_some (add_rows-last_index_write_at existing (zero_delta (some now)) (r ∷ rows)))

module _ (db : IndexDatabase) where
  -- The map of existing rows is right on the scenes of some patches.
  unfoldable pub Agree : List SceneIndexPatch → Dict Text SceneIndexRow → Store db → Type 0
  Agree patches existing store =
      (j : Text) → is_some (patch_for j patches) ≡ true → get j existing ≡ the_row db store j

  transaction_nil :
      (now : ℕ) (existing : Dict Text SceneIndexRow) (store : Store db)
      → transaction db now [] existing store ≡ some store
  unfolding transaction upsert_rows add_rows build_scene_index_summary_delta has_summary_delta
  transaction_nil now existing store = refl

  upsert_rows_nil : (rows : db.scenes.table.Rows) → rows ≡ upsert_rows db [] rows
  unfolding upsert_rows
  upsert_rows_nil rows = refl

  -- The transaction succeeds where the summary is there, and keeps it accurate.
  transaction-Sound :
      (now : ℕ) (next existing : Dict Text SceneIndexRow) (store : Store db)
      → Unique next
      → ((j : Text) → is_some (get j next) ≡ true → get j existing ≡ the_row db store j)
      → Sound db store
      → (store' : Store db) × ((transaction db now next existing store ≡ some store')
          × ((store'.scene_rows ≡ upsert_rows db next store.scene_rows) × Sound db store'))
  unfolding transaction
  transaction-Sound now [] existing store unique agree sound =
      (store, (transaction_nil now existing store, (upsert_rows_nil store.scene_rows, sound)))
  transaction-Sound now (r ∷ rows) existing store unique agree (s, (there, accurate)) =
      let delta : SceneIndexSummary = build_scene_index_summary_delta now (r ∷ rows) existing in
      written (
        update_found db.summaries scene_index_summary_key
          (build_scene_index_summary_delta_update delta) s store.summary_rows there)
    where
      written :
          (rows' : db.summaries.Rows) × (db.summaries.update scene_index_summary_key
                (build_scene_index_summary_delta_update
                  (build_scene_index_summary_delta now (r ∷ rows) existing))
                store.summary_rows
              ≡ some rows')
            × ((j : Text)
                → db.summaries.find_unique j rows' ≡ (
                    if text_eq scene_index_summary_key j
                    then some (
                        build_scene_index_summary_delta_update
                          (build_scene_index_summary_delta now (r ∷ rows) existing)
                          s)
                    else db.summaries.find_unique j store.summary_rows))
          → (store' : Store db) × ((transaction db now (r ∷ rows) existing store ≡ some store')
              × ((store'.scene_rows ≡ upsert_rows db (r ∷ rows) store.scene_rows)
                  × Sound db store'))
      written (rows', done, finds) = (
        record store {
          scene_rows = upsert_rows db (r ∷ rows) store.scene_rows;
          summary_rows = rows';
        },
        (
          rw (has_summary_delta_of_rows now r rows existing, transaction) (rw done refl),
          (
            refl,
            (
              build_scene_index_summary_delta_update
                  (build_scene_index_summary_delta now (r ∷ rows) existing) s,
              (
                finds scene_index_summary_key ∙ rw (text_eq_refl scene_index_summary_key) refl,
                upsert_rows-Accurate db now existing (r ∷ rows) store.scene_rows s unique agree
                    accurate,
              ),
            ),
          ),
        ),
      )

  -- A commit of a chunk: the summary stays accurate, and the rows are those of the patches.
  pub record Commit (queues : Queues) (chunk : List SceneIndexPatch)
      (existing : Dict Text SceneIndexRow) (store after : Store db) : Type 0 where
    pub sound : Sound db after
    pub rows :
        (j : Text)
        → the_row db after j
          ≡ over (Option.map (next_row existing queues) (patch_for j chunk)) (the_row db store j)

  pub attempt_chunk-Commit :
      (now : ℕ) (queues : Queues) (chunk : List SceneIndexPatch)
      (existing : Dict Text SceneIndexRow) (store : Store db)
      → Distinct chunk
      → Agree chunk existing store
      → Sound db store
      → (after : Store db) × ((attempt_chunk db now none queues chunk existing store
            ≡ returned after (set_rows (next_rows existing queues chunk) existing))
          × Commit queues chunk existing store after)
  unfolding attempt_chunk Agree invalidate_scheduled_metadata_backfill_check_if_needed
  attempt_chunk-Commit now queues chunk existing store distinct agree sound = go (
      transaction-Sound now (next_rows existing queues chunk) existing store unique
        (λ j e. agree j (sym (ap is_some (get-next_rows existing queues chunk j) ∙ some_map j) ∙ e))
        sound)
    where
      unique : Unique (next_rows existing queues chunk)
      unique = next_rows-Unique existing queues chunk distinct

      some_map :
          (j : Text)
          → is_some (Option.map (next_row existing queues) (patch_for j chunk))
            ≡ is_some (patch_for j chunk)
      some_map j = elim (Option-cases (patch_for j chunk)) [
        | inl e ↦ rw e refl
        | inr (p, e) ↦ rw e refl
      ]

      go :
          (store' : Store db) × ((transaction db now
                  (next_rows existing queues chunk)
                  existing
                  store
                ≡ some store')
              × ((store'.scene_rows
                    ≡ upsert_rows db (next_rows existing queues chunk) store.scene_rows)
                  × Sound db store'))
          → (after : Store db) × ((attempt_chunk db now none queues chunk existing store
                ≡ returned after (set_rows (next_rows existing queues chunk) existing))
              × Commit queues chunk existing store after)
      go (store', (done, (written, (s, (there, accurate))))) = (
        invalidate_scheduled_metadata_backfill_check_if_needed db now
            (next_rows existing queues chunk) store',
        (
          rw (done, attempt_chunk) refl,
          record {
            sound = (s, (there, accurate));
            rows = λ j.
                ap (db.scenes.table.find_unique j) written
                ∙ (find-upsert_rows db (next_rows existing queues chunk) store.scene_rows j unique
                    ∙ ap (λ r. over r (the_row db store j))
                        (get-next_rows existing queues chunk j));
          },
        ),
      )
