-- ===== src/Requests/Tests.antt =====
-- A request over tables in memory, with adapters that answer.
use stasharr_portal.Indexing.SceneIndex.Seed.{seed_requested_scene, seed_trimmed}
use stasharr_portal.Indexing.SceneIndex.Apply.{
  apply_merged, apply_scene_index_patches, attempt_chunk, attempts_from, chunks_from,
  execute_chunks, execute_patch_chunk, insert_patch, next_rows, read_rows, set_rows, sort_patches,
  transaction, upsert_rows,
}
use stasharr_portal.Indexing.SceneIndex.Store.{
  ensure_scene_index_summary, invalidate_scheduled_metadata_backfill_check_if_needed,
  is_deadlock_error, rebuild_scene_index_summary, recount, should_hydrate_metadata_now,
}
use stasharr_portal.Indexing.SceneIndex.Summary.{
  add_row, add_rows, build_scene_index_summary_delta, build_scene_index_summary_delta_update,
  count_delta, has_lifecycle, has_metadata_state, has_summary_delta, in_acquisition,
  is_acquisition_lifecycle,
}
use stasharr_portal.Indexing.SceneIndex.Merge.{merge_into, merge_patches_by_stash_id}
use stasharr_portal.Indexing.SceneIndex.{
  build_scene_index_upsert_data, compute_lifecycle, lifecycle_sort_order, overlay, patched,
  pick_value, spread, synthesize_queue_items,
}
use stasharr_portal.SceneStatus.{read_item, resolve_queue_lifecycle_state, resolve_scene_status}
use stasharr_portal.Database.Counts.{count_rows}
use stasharr_portal.Prelude.Int.{diff, ◌+ℤ◌}
use stasharr_portal.Prelude.{◌≡◌, refl, true, false, none, some, List, [], ◌∷◌}
use stasharr_portal.Prelude.Text.{Text, text, eq_text, trim, includes, text_eq, to_lower}
use stasharr_portal.Prelude.Results.{Result, ok}
use stasharr_portal.Database.Memory.{memory, create_row, update_row, upsert_row}
use stasharr_portal.Prelude.Dict.{get, put}
use stasharr_portal.Catalog.Selection.{
  Integration, configured, object, field, bool, no_fields, configured_type,
  instance_catalog_provider_type, is_enabled, is_selected,
}
use stasharr_portal.Catalog.Service.{
  get_configured_catalog_provider, find_one, provider_or_throw, trimmed_url,
  get_instance_catalog_provider_type,
}
use stasharr_portal.Indexing.SceneIndex.Sample.{index}
use stasharr_portal.Indexing.SceneIndex.Sound.{NotStale}
use stasharr_portal.Requests.{
  RequestsDatabase, RequestRow, World, Adapters, Submission, SubmitResponse, submit_scene_request,
  get_active_catalog_config, get_whisparr_config, note_request, request_new, seed, send,
  upsert_local_request_row,
}
use stasharr_portal.Requests.Submitted.{Answered, submit_scene_request-Accepted}

abbrev database : RequestsDatabase
database = record { index = index; requests = memory Text RequestRow }

abbrev adapters : Adapters
adapters = record {
  get_scene_by_id = λ id config. ok (record {
    id = id;
    title = text "A title";
    details = none;
    image_url = none;
    studio_id = none;
    studio_name = some (text "Studio");
    studio_image_url = none;
    release_date = none;
    duration = none;
  });
  find_movie_by_stash_id = λ id config. ok none;
  get_root_folders = λ config. ok (record { path = text "/data"; accessible = true } ∷ []);
  get_quality_profiles = λ config. ok (4 ∷ []);
  get_tags = λ config. ok [];
  create_movie = λ movie config. ok (some 7);
}

abbrev integration : Text → Integration
integration type = record {
  type = type;
  enabled = some true;
  status = some configured;
  base_url = some (text "https://x");
  api_key = none;
  last_healthy_at = some 5;
  config = some (object (field (text "selectedForInstanceCatalogProvider") (bool true) no_fields));
}

abbrev providers : List Integration
providers = integration (text "STASHDB") ∷ []

abbrev whisparr : Result Integration
whisparr = ok (integration (text "WHISPARR"))

abbrev dto : Submission
dto = record {
  monitored = true;
  root_folder_path = text "/data";
  search_for_movie = true;
  quality_profile_id = 4;
  tags = [];
}

abbrev before : World database
before = record {
  index = record { scene_rows = []; summary_rows = []; next_metadata_backfill_check_at = none };
  requests = [];
  created = [];
  refreshed = [];
}

fresh-NotStale : NotStale database.index before.index
unfolding get
fresh-NotStale s e = cc e

abbrev after : World database
after =
    (submit_scene_request database adapters providers whisparr 100 (λ _ _. none) (text " a ") dto
      before).0

abbrev response : SubmitResponse
response = record { already_exists = false; stash_id = text "a"; whisparr_movie_id = some 7 }

requests_run : Unit {0}
unfolding submit_scene_request get_whisparr_config get_active_catalog_config
    get_configured_catalog_provider get_instance_catalog_provider_type
    instance_catalog_provider_type configured_type is_enabled is_selected find_one provider_or_throw
    trimmed_url request_new send note_request upsert_local_request_row seed seed_requested_scene
    seed_trimmed apply_scene_index_patches apply_merged execute_chunks execute_patch_chunk
    attempts_from attempt_chunk transaction upsert_rows next_rows set_rows read_rows sort_patches
    insert_patch chunks_from merge_patches_by_stash_id merge_into overlay spread patched pick_value
    build_scene_index_upsert_data compute_lifecycle synthesize_queue_items lifecycle_sort_order
    resolve_scene_status resolve_queue_lifecycle_state read_item text_eq trim includes to_lower get
    put has_summary_delta build_scene_index_summary_delta build_scene_index_summary_delta_update
    add_rows add_row count_delta has_lifecycle has_metadata_state in_acquisition
    is_acquisition_lifecycle diff ◌+ℤ◌ is_deadlock_error ensure_scene_index_summary
    rebuild_scene_index_summary recount upsert_row update_row create_row count_rows
    invalidate_scheduled_metadata_backfill_check_if_needed should_hydrate_metadata_now
requests_run = tt

accepted :
    submit_scene_request database adapters providers whisparr 100
      (λ _ _. none)
      (text " a ")
      dto
      before
    ≡ (after, ok response)
unfolding requests_run
accepted = refl

submit_scene_request-Accepted_example :
    Answered database adapters whisparr (trim (text " a ")) dto before after response
submit_scene_request-Accepted_example =
    submit_scene_request-Accepted database adapters providers whisparr 100 (λ _ _. none)
      (text " a ") dto before after response fresh-NotStale accepted
