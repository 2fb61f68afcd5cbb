-- ===== src/Indexing/SceneIndex/Sound.antt =====
-- The summary counts what the table holds: what the recount and each transaction of
-- apps/sp-api/src/indexing/indexing.service.ts make of it.
use stasharr_portal.Prelude.{
  ℕ, ◌+◌, ◌≡◌, refl, ap, inl, inr, true, some, Option-cases, is_some, ◌∙◌, Bool, ◌||◌, Option, none,
  arith, ◌==◌,
}
use stasharr_portal.Prelude.Text.{Text, eq_text, text_eq_refl}
use stasharr_portal.Prelude.Dict.{Dict, get}
use stasharr_portal.Prelude.Int.{pos, diff, ◌+ℤ◌, pos_add_diff}
use stasharr_portal.Database.{upserted}
use stasharr_portal.SceneStatus.{SceneState}
use stasharr_portal.Indexing.SceneIndex.{SceneIndexRow}
use stasharr_portal.Indexing.SceneIndex.Summary.{
  SceneIndexSummary, in_acquisition, is_acquisition_lifecycle, has_lifecycle,
  build_scene_index_summary_delta, build_scene_index_summary_delta_update, lifecycle_code,
}
use stasharr_portal.Indexing.SceneIndex.Deltas.{
  EachCounter, each_map, Moves, counters-Moves, sum_next, sum_old, each_both,
}
use stasharr_portal.Indexing.SceneIndex.Store.{
  IndexDatabase, Store, the_summary, scene_index_summary_key, recount, rebuild_scene_index_summary,
  ensure_scene_index_summary,
}
use stasharr_portal.Indexing.SceneIndex.Batch.{Unique, count-upsert_rows, sum_old_ext}
use stasharr_portal.Indexing.SceneIndex.Apply.{upsert_rows}

-- Every counter of the summary is the count of the rows that pass its test.
unfoldable pub Accurate : (db : IndexDatabase) → db.scenes.table.Rows → SceneIndexSummary → Type 0
Accurate db rows summary = EachCounter (λ f p. f summary ≡ pos (db.scenes.count p rows))

-- The summary is there, and accurate.
abbrev pub Sound : (db : IndexDatabase) → Store db → Type 0
Sound db store =
    (s : SceneIndexSummary) × ((the_summary db store ≡ some s) × Accurate db store.scene_rows s)

-- The summary is accurate if it is there.
abbrev pub NotStale : (db : IndexDatabase) → Store db → Type 0
NotStale db store =
    (s : SceneIndexSummary) → the_summary db store ≡ some s → Accurate db store.scene_rows s

acquisition_codes :
    (s : SceneState)
    → is_acquisition_lifecycle s ≡ (
        ((lifecycle_code s == 1 || lifecycle_code s == 2) || lifecycle_code s == 3)
        || lifecycle_code s == 5)
unfolding is_acquisition_lifecycle
acquisition_codes SceneState.not_requested = refl
acquisition_codes SceneState.requested = refl
acquisition_codes SceneState.downloading = refl
acquisition_codes SceneState.import_pending = refl
acquisition_codes SceneState.available = refl
acquisition_codes SceneState.failed = refl

module _ (db : IndexDatabase) where
  -- The four lifecycles of the acquisition are apart.
  acquisition_count :
      (rows : db.scenes.table.Rows)
      → db.scenes.count (has_lifecycle SceneState.requested) rows
          + db.scenes.count (has_lifecycle SceneState.downloading) rows
          + db.scenes.count (has_lifecycle SceneState.import_pending) rows
          + db.scenes.count (has_lifecycle SceneState.failed) rows
        ≡ db.scenes.count in_acquisition rows
  unfolding has_lifecycle in_acquisition
  acquisition_count rows =
      let one : SceneIndexRow → Bool = has_lifecycle SceneState.requested in
      let two : SceneIndexRow → Bool =
        λ r. has_lifecycle SceneState.requested r || has_lifecycle SceneState.downloading r in
      let three : SceneIndexRow → Bool = λ r. two r || has_lifecycle SceneState.import_pending r in
      let last : db.scenes.count in_acquisition rows
          ≡ db.scenes.count three rows + db.scenes.count (has_lifecycle SceneState.failed) rows =
        db.scenes.count-split in_acquisition three (has_lifecycle SceneState.failed) rows
          (λ r. rw (acquisition_codes r.computed_lifecycle) (ground arith)) in
      omega (
        arith,
        last,
        db.scenes.count-split two one (has_lifecycle SceneState.downloading) rows
            (λ r. ground arith),
        db.scenes.count-split three two (has_lifecycle SceneState.import_pending) rows
            (λ r. ground arith),
      )

  fresh_or_same :
      (s : SceneIndexSummary) (old : Option SceneIndexSummary) → upserted s (λ _. s) old ≡ s
  fresh_or_same s none = refl
  fresh_or_same s (some _) = refl

  recount-Accurate : (rows : db.scenes.table.Rows) → Accurate db rows (recount db rows)
  unfolding Accurate recount
  recount-Accurate rows = record {
    indexed_scenes = refl;
    acquisition_tracked_scenes = ap pos (acquisition_count rows);
    requested_count = refl;
    downloading_count = refl;
    import_pending_count = refl;
    failed_count = refl;
    metadata_pending_count = refl;
    metadata_retryable_count = refl;
  }

  -- A rebuilt summary is there and accurate, whatever was there before.
  pub rebuild_scene_index_summary-Sound :
      (store : Store db) → Sound db (rebuild_scene_index_summary db store)
  unfolding rebuild_scene_index_summary
  rebuild_scene_index_summary-Sound store = (
    recount db store.scene_rows,
    (
      db.summaries.find-upsert scene_index_summary_key scene_index_summary_key
            (recount db store.scene_rows) (λ _. recount db store.scene_rows) store.summary_rows
          ∙ rw (text_eq_refl scene_index_summary_key)
              (ap some (fresh_or_same (recount db store.scene_rows) (the_summary db store))),
      recount-Accurate store.scene_rows,
    ),
  )

  pub ensure_scene_index_summary-Sound :
      (store : Store db) → NotStale db store → Sound db (ensure_scene_index_summary db store)
  unfolding ensure_scene_index_summary
  ensure_scene_index_summary-Sound store h = elim (Option-cases (the_summary db store)) [
    | inl e ↦ rw (e, ensure_scene_index_summary) (rebuild_scene_index_summary-Sound store)
    | inr (s, e) ↦ rw (e, ensure_scene_index_summary) (s, (e, h s e))
  ]

  -- A counter after the batch, by what it was before.
  pub upsert_rows-Accurate :
      (now : ℕ) (existing next : Dict Text SceneIndexRow) (rows : db.scenes.table.Rows)
      (summary : SceneIndexSummary)
      → Unique next
      → ((j : Text)
          → is_some (get j next) ≡ true
          → get j existing ≡ db.scenes.table.find_unique j rows)
      → Accurate db rows summary
      → Accurate db (upsert_rows db next rows) (
          build_scene_index_summary_delta_update
            (build_scene_index_summary_delta now next existing)
            summary)
  unfolding Accurate Moves
  upsert_rows-Accurate now existing next rows summary unique agree accurate =
      each_map
        (λ f p h.
          let olds : sum_old (λ id. get id existing) p next
              ≡ sum_old (λ id. db.scenes.table.find_unique id rows) p next =
            sum_old_ext db (λ id. get id existing) (λ id. db.scenes.table.find_unique id rows) p
              next agree unique in
          h.0 now existing next summary
          ∙ (ap (λ n. n +ℤ diff (sum_next p next) (sum_old (λ id. get id existing) p next)) h.1
              ∙ pos_add_diff (db.scenes.count p rows) (db.scenes.count p (upsert_rows db next rows))
                  (sum_next p next) (sum_old (λ id. get id existing) p next)
                  (omega (arith, olds, count-upsert_rows db p next rows unique))))
        (each_both counters-Moves accurate)
