-- ===== src/Indexing/SceneIndex/Tests.antt =====
-- The index on tables in memory, and its theorems at concrete patches.
use mathlib.Core.Option
use stasharr_portal.Indexing.SceneIndex.Sample.{index}
use stasharr_portal.Prelude.Int.{diff, ◌+ℤ◌, pos}
use stasharr_portal.Prelude.{ℕ, ◌≡◌, refl, Option, none, some, List, [], ◌∷◌, ◌==◌, if◌then◌else◌}
use stasharr_portal.Prelude.Text.{text, eq_text, includes, to_lower, text_eq, trim}
use stasharr_portal.Prelude.Dict.{get, put}
use stasharr_portal.Database.Memory.{upsert_row, update_row, create_row}
use stasharr_portal.Database.Counts.{count_rows}
use stasharr_portal.SceneStatus.{
  RequestStatus, resolve_scene_status, resolve_queue_lifecycle_state, read_item,
}
use stasharr_portal.Indexing.SyncState.{Thrown, an_error}
use stasharr_portal.Indexing.SceneIndex.{
  SceneIndexPatch, value, empty_patch, build_scene_index_upsert_data, overlay, spread, patched,
  pick_value, compute_lifecycle, synthesize_queue_items, lifecycle_sort_order, SceneState,
}
use stasharr_portal.Indexing.SceneIndex.Merge.{
  merge_patches_by_stash_id, patch_for, overlays, merge_patches_by_stash_id-patch_for, merge_into,
}
use stasharr_portal.Indexing.SceneIndex.Summary.{
  has_summary_delta, build_scene_index_summary_delta, build_scene_index_summary_delta_update,
  add_rows, add_row, count_delta, has_lifecycle, has_metadata_state, in_acquisition,
  is_acquisition_lifecycle,
}
use stasharr_portal.Indexing.SceneIndex.Store.{
  Store, is_deadlock_error, ensure_scene_index_summary, rebuild_scene_index_summary, recount,
  invalidate_scheduled_metadata_backfill_check_if_needed, should_hydrate_metadata_now, the_row,
  the_summary,
}
use stasharr_portal.Indexing.SceneIndex.Sound.{NotStale}
use stasharr_portal.Indexing.SceneIndex.Apply.{
  apply_scene_index_patches, attempt_chunk, execute_patch_chunk, apply_merged, execute_chunks,
  attempts_from, transaction, upsert_rows, next_rows, set_rows, read_rows, sort_patches,
  insert_patch, chunks_from,
}
use stasharr_portal.Indexing.SceneIndex.Attempts.{last_outcome, execute_patch_chunk_lem}
use stasharr_portal.Indexing.SceneIndex.Overlay.{AllSettled, build_scene_index_upsert_data-overlay}
use stasharr_portal.Indexing.SceneIndex.Runs.{RowEnd}
use stasharr_portal.Indexing.SceneIndex.Invariant.{
  apply_scene_index_patches-NotStale, apply_scene_index_patches-RowEnd,
}

abbrev empty_store : Store index
empty_store = record {
  scene_rows = [];
  summary_rows = [];
  next_metadata_backfill_check_at = some 5000;
}

abbrev request_patch : SceneIndexPatch
request_patch = record (empty_patch (text " b ")) {
  request_status = value (some RequestStatus.requested);
  title = value (some (text "B"));
}

abbrev movie_patch : SceneIndexPatch
movie_patch = record (empty_patch (text "b")) {
  whisparr_movie_id = value (some 7);
  whisparr_queue_status = value (some (text "downloading"));
  title = value none;
}

abbrev failed_patch : SceneIndexPatch
failed_patch = record (empty_patch (text "a")) {
  request_status = value (some RequestStatus.failed);
}

abbrev patches : List SceneIndexPatch
patches = request_patch ∷ failed_patch ∷ movie_patch ∷ empty_patch (text " ") ∷ []

abbrev deadlock : Thrown
deadlock = an_error none (text "Deadlock detected")

-- A first attempt that the database gives up.
abbrev once : ℕ → ℕ → Option Thrown
once chunk attempt = if attempt == 1 then some deadlock else none

empty-NotStale : NotStale index empty_store
unfolding get
empty-NotStale s e = cc e

apply_scene_index_patches-NotStale_example :
    NotStale index (apply_scene_index_patches index 100 once patches none empty_store).0
apply_scene_index_patches-NotStale_example =
    apply_scene_index_patches-NotStale index 100 once patches none empty_store empty-NotStale

apply_scene_index_patches-RowEnd_example :
    RowEnd index none
      (merge_patches_by_stash_id patches)
      empty_store
      (apply_scene_index_patches index 100 once patches none empty_store)
      (text "b")
apply_scene_index_patches-RowEnd_example =
    apply_scene_index_patches-RowEnd index 100 once patches none empty_store (text "b")
      empty-NotStale

merge_patches_by_stash_id-patch_for_example :
    patch_for (98 ∷ []) (merge_patches_by_stash_id patches) ≡ overlays (98 ∷ []) none patches
merge_patches_by_stash_id-patch_for_example = merge_patches_by_stash_id-patch_for 98 [] patches

execute_patch_chunk_lem_example :
    execute_patch_chunk index 100 (once 0) none patches [] empty_store
    ≡ attempt_chunk index 100 (last_outcome index (once 0)) none patches [] empty_store
execute_patch_chunk_lem_example =
    execute_patch_chunk_lem index 100 (once 0) none patches [] empty_store

movie_patch-AllSettled : AllSettled movie_patch
movie_patch-AllSettled = record {
  request_status = tt;
  request_updated_at = tt;
  title = tt;
  description = tt;
  image_url = tt;
  studio_id = tt;
  studio_name = tt;
  studio_image_url = tt;
  release_date = tt;
  duration = tt;
  whisparr_movie_id = tt;
  whisparr_has_file = tt;
  whisparr_queue_position = tt;
  whisparr_queue_status = tt;
  whisparr_queue_state = tt;
  whisparr_error_message = tt;
  stash_available = tt;
  metadata_hydration_state = tt;
  metadata_last_synced_at = tt;
  metadata_retry_after_at = tt;
  whisparr_last_synced_at = tt;
  stash_last_synced_at = tt;
  last_synced_at = tt;
}

build_scene_index_upsert_data-overlay_example :
    build_scene_index_upsert_data none (overlay (text "b") request_patch movie_patch) none
    ≡ build_scene_index_upsert_data
        (some (build_scene_index_upsert_data none request_patch none))
        movie_patch
        none
build_scene_index_upsert_data-overlay_example =
    build_scene_index_upsert_data-overlay none request_patch movie_patch none none
      movie_patch-AllSettled

service : Unit {0}
unfolding apply_scene_index_patches apply_merged execute_chunks execute_patch_chunk attempts_from
    attempt_chunk transaction upsert_rows next_rows set_rows read_rows sort_patches insert_patch
    chunks_from merge_patches_by_stash_id merge_into overlay spread patched pick_value
    build_scene_index_upsert_data compute_lifecycle synthesize_queue_items lifecycle_sort_order
    resolve_scene_status resolve_queue_lifecycle_state read_item text_eq trim includes to_lower get
    put has_summary_delta build_scene_index_summary_delta build_scene_index_summary_delta_update
    add_rows add_row count_delta has_lifecycle has_metadata_state in_acquisition
    is_acquisition_lifecycle diff ◌+ℤ◌ is_deadlock_error ensure_scene_index_summary
    rebuild_scene_index_summary recount upsert_row update_row create_row count_rows
    invalidate_scheduled_metadata_backfill_check_if_needed should_hydrate_metadata_now
service = tt

apply_tests :
    let (after, error) = apply_scene_index_patches index 100 once patches none empty_store in
    (error ≡ none)
    × (Option.map (λ r. r.computed_lifecycle) (the_row index after (text "a"))
        ≡ some SceneState.failed)
    × (Option.map (λ r. r.computed_lifecycle) (the_row index after (text "b"))
        ≡ some SceneState.downloading)
    × (Option.map (λ r. r.title) (the_row index after (text "b")) ≡ some none)
    × (Option.map (λ s. s.indexed_scenes) (the_summary index after) ≡ some (pos 2))
    × (Option.map (λ s. s.requested_count) (the_summary index after) ≡ some (pos 0))
    × (Option.map (λ s. s.acquisition_tracked_scenes) (the_summary index after) ≡ some (pos 2))
    × (after.next_metadata_backfill_check_at ≡ none)
unfolding service
apply_tests = (refl, refl, refl, refl, refl, refl, refl, refl)
