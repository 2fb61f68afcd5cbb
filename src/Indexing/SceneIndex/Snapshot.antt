-- ===== src/Indexing/SceneIndex/Snapshot.antt =====
-- The summary as the other services read it: `getSceneIndexSummary` and
-- `getIndexingDiagnosticsSnapshot` of apps/sp-api/src/indexing/indexing.service.ts.
use stasharr_portal.Prelude.{
  ℕ, ◌+◌, ◌≡◌, refl, inl, inr, true, Option, none, some, Option-cases, ◌≤◌, ap, ◌∙◌, Bool, ◌||◌,
  arith,
}
use mathlib.Core.Path.{subst}
use stasharr_portal.Prelude.Text.{eq_text}
use stasharr_portal.Prelude.Int.{ℤ, pos, negsuc, diff, ◌+ℤ◌, pos_part, neg_part}
use stasharr_portal.Indexing.SceneIndex.{
  SceneIndexRow, MetadataHydrationState, pending, hydrated, failed_retryable,
}
use stasharr_portal.Indexing.SceneIndex.Summary.{
  SceneIndexSummary, has_metadata_state, zero_delta, metadata_code,
}
use stasharr_portal.Indexing.SceneIndex.Store.{
  IndexDatabase, Store, the_summary, ensure_scene_index_summary, rebuild_scene_index_summary,
}
use stasharr_portal.Indexing.SceneIndex.Sound.{Accurate, NotStale, ensure_scene_index_summary-Sound}

-- `summary?.indexedScenes ?? 0` and so on.
abbrev pub or_zero : Option SceneIndexSummary → SceneIndexSummary
or_zero none = zero_delta none
or_zero (some summary) = summary

-- The summary, rebuilt where it is missing.
unfoldable pub get_scene_index_summary :
    (db : IndexDatabase) → Store db → Store db × SceneIndexSummary
get_scene_index_summary db store =
    let ensured : Store db = ensure_scene_index_summary db store in
    (ensured, or_zero (the_summary db ensured))

-- `Math.max(0, a - b)`
unfoldable pub positive_difference : ℤ → ℤ → ℤ
positive_difference a b = elim (diff (pos_part a + neg_part b) (neg_part a + pos_part b)) [
  | pos n ↦ pos n
  | negsuc _ ↦ pos 0
]

pub record DiagnosticsSnapshot : Type 0 where
  pub summary : SceneIndexSummary
  pub metadata_hydrated_count : ℤ
  pub metadata_backlog_count : ℤ
  pub metadata_hydration_in_flight_count : ℕ

-- `in_flight` is the size of the set of hydrations in flight.
unfoldable pub get_indexing_diagnostics_snapshot :
    (db : IndexDatabase) → (in_flight : ℕ) → Store db → Store db × DiagnosticsSnapshot
get_indexing_diagnostics_snapshot db in_flight store =
    let (after, summary) = get_scene_index_summary db store in
    let backlog : ℤ = summary.metadata_pending_count +ℤ summary.metadata_retryable_count in
    (
      after,
      record {
        summary = summary;
        metadata_hydrated_count = positive_difference summary.indexed_scenes backlog;
        metadata_backlog_count = backlog;
        metadata_hydration_in_flight_count = in_flight;
      },
    )

metadata_code_le : (s : MetadataHydrationState) → metadata_code s ≤ 2
metadata_code_le s = ground arith

positive_difference_pos : (n m k : ℕ) → n ≡ m + k → positive_difference (pos n) (pos m) ≡ pos k
unfolding positive_difference diff
positive_difference_pos n m k h = ground (arith, h)

pos_add : (n m : ℕ) → pos n +ℤ pos m ≡ pos (n + m)
unfolding ◌+ℤ◌ diff
pos_add n m = ground arith

module _ (db : IndexDatabase) where
  ensure-scene_rows :
      (store : Store db) → (ensure_scene_index_summary db store).scene_rows ≡ store.scene_rows
  unfolding ensure_scene_index_summary rebuild_scene_index_summary
  ensure-scene_rows store = elim (Option-cases (the_summary db store)) [
    | inl e ↦ rw (e, ensure_scene_index_summary) refl
    | inr (s, e) ↦ rw (e, ensure_scene_index_summary) refl
  ]

  -- What is read counts the rows of the index.
  pub get_scene_index_summary-Accurate :
      (store : Store db)
      → NotStale db store
      → Accurate db store.scene_rows (get_scene_index_summary db store).1
  unfolding get_scene_index_summary
  get_scene_index_summary-Accurate store h =
      let (s, (there, accurate)) = ensure_scene_index_summary-Sound db store h in
      rw (there) (subst (λ rows. Accurate db rows s) (ensure-scene_rows store) accurate)

  -- Every row is pending, hydrated or to be retried.
  metadata_states :
      (rows : db.scenes.table.Rows)
      → db.scenes.count (λ _. true) rows
        ≡ db.scenes.count (has_metadata_state pending) rows
          + db.scenes.count (has_metadata_state failed_retryable) rows
          + db.scenes.count (has_metadata_state hydrated) rows
  unfolding has_metadata_state
  metadata_states rows =
      let two : SceneIndexRow → Bool =
        λ r. has_metadata_state pending r || has_metadata_state failed_retryable r in
      omega (
        arith,
        db.scenes.count-split two (has_metadata_state pending) (has_metadata_state failed_retryable)
            rows (λ r. ground arith),
        db.scenes.count-split (λ _. true) two (has_metadata_state hydrated) rows
            (λ r. ground (arith, metadata_code_le r.metadata_hydration_state)),
      )

-- The diagnostics report as hydrated as many scenes as the index holds hydrated rows, and as the
-- backlog the other rows, if the summary counts rightly or is not there.
pub get_indexing_diagnostics_snapshot-counts :
    (db : IndexDatabase) (in_flight : ℕ) (store : Store db)
    → NotStale db store
    → ((get_indexing_diagnostics_snapshot db in_flight store).1.metadata_hydrated_count
        ≡ pos (db.scenes.count (has_metadata_state hydrated) store.scene_rows))
      × ((get_indexing_diagnostics_snapshot db in_flight store).1.metadata_backlog_count
          ≡ pos (
              db.scenes.count (has_metadata_state pending) store.scene_rows
              + db.scenes.count (has_metadata_state failed_retryable) store.scene_rows))
unfolding get_indexing_diagnostics_snapshot Accurate
get_indexing_diagnostics_snapshot-counts db in_flight store h =
    let count : MetadataHydrationState → ℕ =
      λ s. db.scenes.count (has_metadata_state s) store.scene_rows in
    let all : Accurate db store.scene_rows (get_scene_index_summary db store).1 =
      get_scene_index_summary-Accurate db store h in
    let summary : SceneIndexSummary = (get_scene_index_summary db store).1 in
    let backlog : summary.metadata_pending_count +ℤ summary.metadata_retryable_count
        ≡ pos (count pending + count failed_retryable) =
      ap (λ x. x +ℤ summary.metadata_retryable_count) all.metadata_pending_count
      ∙ (ap (λ x. pos (count pending) +ℤ x) all.metadata_retryable_count
          ∙ pos_add (count pending) (count failed_retryable)) in
    (
      ap
            (λ x.
              positive_difference x
                (summary.metadata_pending_count +ℤ summary.metadata_retryable_count))
            all.indexed_scenes
          ∙ (ap (positive_difference (pos (db.scenes.count (λ _. true) store.scene_rows))) backlog
              ∙ positive_difference_pos (db.scenes.count (λ _. true) store.scene_rows)
                  (count pending + count failed_retryable) (count hydrated)
                  (metadata_states db store.scene_rows)),
      backlog,
    )
