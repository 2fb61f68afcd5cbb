-- ===== src/Indexing/SceneIndex/Overlay.antt =====
-- Merged patches against patches one at a time, `mergePatchesByStashId` beside
-- `buildSceneIndexUpsertData` of apps/sp-api/src/indexing/indexing.service.ts.
use stasharr_portal.Prelude.{◌≡◌, refl, ap, Option, some, List}
use stasharr_portal.Prelude.Text.{Text, eq_text}
use stasharr_portal.SceneStatus.{SceneState, QueueItem}
use stasharr_portal.Indexing.SceneIndex.{
  absent, undefined, value, SceneIndexPatch, SceneIndexRow, Field, pick_value, spread, overlay,
  patched, or_blank, with_lifecycle, compute_lifecycle, build_scene_index_upsert_data,
}

-- The property is not there with the value undefined.
abbrev pub Settled : {A : Type 0} → Field A → Type 0
Settled absent = Unit
Settled undefined = ⊥
Settled (value v) = Unit

pick_value-spread :
    {A : Type 0} (earlier later : Field A) (old : A)
    → Settled later
    → pick_value (spread earlier later) old ≡ pick_value later (pick_value earlier old)
unfolding pick_value spread
pick_value-spread earlier absent old h = refl
pick_value-spread earlier undefined old h = absurd h
pick_value-spread earlier (value v) old h = refl

-- No property of the patch is there with the value undefined.
pub record AllSettled (patch : SceneIndexPatch) : Type 0 where
  pub request_status : Settled patch.request_status
  pub request_updated_at : Settled patch.request_updated_at
  pub title : Settled patch.title
  pub description : Settled patch.description
  pub image_url : Settled patch.image_url
  pub studio_id : Settled patch.studio_id
  pub studio_name : Settled patch.studio_name
  pub studio_image_url : Settled patch.studio_image_url
  pub release_date : Settled patch.release_date
  pub duration : Settled patch.duration
  pub whisparr_movie_id : Settled patch.whisparr_movie_id
  pub whisparr_has_file : Settled patch.whisparr_has_file
  pub whisparr_queue_position : Settled patch.whisparr_queue_position
  pub whisparr_queue_status : Settled patch.whisparr_queue_status
  pub whisparr_queue_state : Settled patch.whisparr_queue_state
  pub whisparr_error_message : Settled patch.whisparr_error_message
  pub stash_available : Settled patch.stash_available
  pub metadata_hydration_state : Settled patch.metadata_hydration_state
  pub metadata_last_synced_at : Settled patch.metadata_last_synced_at
  pub metadata_retry_after_at : Settled patch.metadata_retry_after_at
  pub whisparr_last_synced_at : Settled patch.whisparr_last_synced_at
  pub stash_last_synced_at : Settled patch.stash_last_synced_at
  pub last_synced_at : Settled patch.last_synced_at

-- The columns that the patches write, before the lifecycle is computed.
patched-overlay :
    (id : Text) (existing : Option SceneIndexRow) (earlier later : SceneIndexPatch)
    (state : SceneState)
    → AllSettled later
    → patched existing (overlay id earlier later)
      ≡ patched (some (with_lifecycle (patched existing earlier) state)) later
unfolding patched overlay
patched-overlay id existing earlier later state h = λ i. record {
  request_status =
      pick_value-spread earlier.request_status later.request_status
        (or_blank existing).request_status h.request_status i;
  request_updated_at =
      pick_value-spread earlier.request_updated_at later.request_updated_at
        (or_blank existing).request_updated_at h.request_updated_at i;
  title = pick_value-spread earlier.title later.title (or_blank existing).title h.title i;
  description =
      pick_value-spread earlier.description later.description (or_blank existing).description
        h.description i;
  image_url =
      pick_value-spread earlier.image_url later.image_url (or_blank existing).image_url h.image_url
        i;
  studio_id =
      pick_value-spread earlier.studio_id later.studio_id (or_blank existing).studio_id h.studio_id
        i;
  studio_name =
      pick_value-spread earlier.studio_name later.studio_name (or_blank existing).studio_name
        h.studio_name i;
  studio_image_url =
      pick_value-spread earlier.studio_image_url later.studio_image_url
        (or_blank existing).studio_image_url h.studio_image_url i;
  release_date =
      pick_value-spread earlier.release_date later.release_date (or_blank existing).release_date
        h.release_date i;
  duration =
      pick_value-spread earlier.duration later.duration (or_blank existing).duration h.duration i;
  whisparr_movie_id =
      pick_value-spread earlier.whisparr_movie_id later.whisparr_movie_id
        (or_blank existing).whisparr_movie_id h.whisparr_movie_id i;
  whisparr_has_file =
      pick_value-spread earlier.whisparr_has_file later.whisparr_has_file
        (or_blank existing).whisparr_has_file h.whisparr_has_file i;
  whisparr_queue_position =
      pick_value-spread earlier.whisparr_queue_position later.whisparr_queue_position
        (or_blank existing).whisparr_queue_position h.whisparr_queue_position i;
  whisparr_queue_status =
      pick_value-spread earlier.whisparr_queue_status later.whisparr_queue_status
        (or_blank existing).whisparr_queue_status h.whisparr_queue_status i;
  whisparr_queue_state =
      pick_value-spread earlier.whisparr_queue_state later.whisparr_queue_state
        (or_blank existing).whisparr_queue_state h.whisparr_queue_state i;
  whisparr_error_message =
      pick_value-spread earlier.whisparr_error_message later.whisparr_error_message
        (or_blank existing).whisparr_error_message h.whisparr_error_message i;
  stash_available =
      pick_value-spread earlier.stash_available later.stash_available
        (or_blank existing).stash_available h.stash_available i;
  metadata_hydration_state =
      pick_value-spread earlier.metadata_hydration_state later.metadata_hydration_state
        (or_blank existing).metadata_hydration_state h.metadata_hydration_state i;
  metadata_last_synced_at =
      pick_value-spread earlier.metadata_last_synced_at later.metadata_last_synced_at
        (or_blank existing).metadata_last_synced_at h.metadata_last_synced_at i;
  metadata_retry_after_at =
      pick_value-spread earlier.metadata_retry_after_at later.metadata_retry_after_at
        (or_blank existing).metadata_retry_after_at h.metadata_retry_after_at i;
  whisparr_last_synced_at =
      pick_value-spread earlier.whisparr_last_synced_at later.whisparr_last_synced_at
        (or_blank existing).whisparr_last_synced_at h.whisparr_last_synced_at i;
  stash_last_synced_at =
      pick_value-spread earlier.stash_last_synced_at later.stash_last_synced_at
        (or_blank existing).stash_last_synced_at h.stash_last_synced_at i;
  last_synced_at =
      pick_value-spread earlier.last_synced_at later.last_synced_at
        (or_blank existing).last_synced_at h.last_synced_at i;
  computed_lifecycle = SceneState.not_requested;
  lifecycle_sort_order = 999;
}

-- A row built from two merged patches is the row built from the later patch on the row built from
-- the earlier one, where no property of the later patch is there with the value undefined.
pub build_scene_index_upsert_data-overlay :
    (existing : Option SceneIndexRow) (earlier later : SceneIndexPatch)
    (first queue_items : Option (List QueueItem))
    → AllSettled later
    → build_scene_index_upsert_data existing (overlay later.stash_id earlier later) queue_items
      ≡ build_scene_index_upsert_data
          (some (build_scene_index_upsert_data existing earlier first))
          later
          queue_items
unfolding build_scene_index_upsert_data overlay
build_scene_index_upsert_data-overlay existing earlier later first queue_items h =
    ap (λ row. with_lifecycle row (compute_lifecycle later.stash_id row queue_items))
      (patched-overlay later.stash_id existing earlier later
        (compute_lifecycle earlier.stash_id (patched existing earlier) first) h)
