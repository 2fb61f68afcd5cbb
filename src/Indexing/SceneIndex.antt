-- ===== src/Indexing/SceneIndex.antt =====
-- The index of scenes that the background jobs keep, the patches that they apply to its rows and
-- how a row follows from the row before and a patch: the types and the pure methods of
-- apps/sp-api/src/indexing/indexing.service.ts, over the models `SceneIndex` and
-- `SceneIndexSummary` of prisma/schema.prisma. A date is its time in milliseconds.
use stasharr_portal.Prelude.{ℕ, Bool, false, Option, none, some, List, [], ◌∷◌}
pub mod Merge
pub mod Runs
pub mod Invariant
pub mod Snapshot
pub mod Seed
pub mod Sample
mod Tests
pub mod Chunks
pub mod Committed
pub mod Sound
pub mod Attempts
pub mod Batch
pub mod Apply
pub mod Store
pub mod Deltas
pub mod Summary
pub mod Overlay
use stasharr_portal.Prelude.Text.{Text, eq_text}
use stasharr_portal.SceneStatus.{
  SceneState, RequestStatus, QueueItem, WhisparrMovieLookup, resolve_scene_status,
}

-- Prisma's `MetadataHydrationState`.
pub data MetadataHydrationState : Type 0 where
  pending hydrated failed_retryable : MetadataHydrationState

-- A property of a patch: not there, there and undefined, or there with a value. A nullable value
-- is an `Option`, null being `none`.
pub data Field (A : Type 0) : Type 0 where
  absent : Field A
  undefined : Field A
  value : A → Field A

-- `SceneIndexPatch`.
pub record SceneIndexPatch : Type 0 where
  pub stash_id : Text
  pub request_status : Field (Option RequestStatus)
  pub request_updated_at : Field (Option ℕ)
  pub title : Field (Option Text)
  pub description : Field (Option Text)
  pub image_url : Field (Option Text)
  pub studio_id : Field (Option Text)
  pub studio_name : Field (Option Text)
  pub studio_image_url : Field (Option Text)
  pub release_date : Field (Option Text)
  pub duration : Field (Option ℕ)
  pub whisparr_movie_id : Field (Option ℕ)
  pub whisparr_has_file : Field (Option Bool)
  pub whisparr_queue_position : Field (Option ℕ)
  pub whisparr_queue_status : Field (Option Text)
  pub whisparr_queue_state : Field (Option Text)
  pub whisparr_error_message : Field (Option Text)
  pub stash_available : Field (Option Bool)
  pub metadata_hydration_state : Field MetadataHydrationState
  pub metadata_last_synced_at : Field (Option ℕ)
  pub metadata_retry_after_at : Field (Option ℕ)
  pub whisparr_last_synced_at : Field (Option ℕ)
  pub stash_last_synced_at : Field (Option ℕ)
  pub last_synced_at : Field (Option ℕ)

-- A row of `SceneIndex` without its key `stashId`: the columns that the patches write.
pub record SceneIndexRow : Type 0 where
  pub request_status : Option RequestStatus
  pub request_updated_at : Option ℕ
  pub title : Option Text
  pub description : Option Text
  pub image_url : Option Text
  pub studio_id : Option Text
  pub studio_name : Option Text
  pub studio_image_url : Option Text
  pub release_date : Option Text
  pub duration : Option ℕ
  pub whisparr_movie_id : Option ℕ
  pub whisparr_has_file : Option Bool
  pub whisparr_queue_position : Option ℕ
  pub whisparr_queue_status : Option Text
  pub whisparr_queue_state : Option Text
  pub whisparr_error_message : Option Text
  pub stash_available : Option Bool
  pub metadata_hydration_state : MetadataHydrationState
  pub metadata_last_synced_at : Option ℕ
  pub metadata_retry_after_at : Option ℕ
  pub whisparr_last_synced_at : Option ℕ
  pub stash_last_synced_at : Option ℕ
  pub last_synced_at : Option ℕ
  pub computed_lifecycle : SceneState
  pub lifecycle_sort_order : ℕ

-- `=== true` on a nullable Boolean.
abbrev pub is_true : Option Bool → Bool
is_true none = false
is_true (some b) = b

-- `{ stashId }`
abbrev pub empty_patch : Text → SceneIndexPatch
empty_patch id = record {
  stash_id = id;
  request_status = absent;
  request_updated_at = absent;
  title = absent;
  description = absent;
  image_url = absent;
  studio_id = absent;
  studio_name = absent;
  studio_image_url = absent;
  release_date = absent;
  duration = absent;
  whisparr_movie_id = absent;
  whisparr_has_file = absent;
  whisparr_queue_position = absent;
  whisparr_queue_status = absent;
  whisparr_queue_state = absent;
  whisparr_error_message = absent;
  stash_available = absent;
  metadata_hydration_state = absent;
  metadata_last_synced_at = absent;
  metadata_retry_after_at = absent;
  whisparr_last_synced_at = absent;
  stash_last_synced_at = absent;
  last_synced_at = absent;
}

unfoldable pub pick_value : {A : Type 0} → Field A → A → A
pick_value absent existing = existing
pick_value undefined existing = existing
pick_value (value incoming) existing = incoming

-- A property of `{ ...earlier, ...later }`.
unfoldable pub spread : {A : Type 0} → Field A → Field A → Field A
spread earlier absent = earlier
spread earlier undefined = undefined
spread earlier (value v) = value v

-- `{ ...earlier, ...later, stashId }`
unfoldable pub overlay : Text → SceneIndexPatch → SceneIndexPatch → SceneIndexPatch
unfolding spread
overlay id earlier later = record {
  stash_id = id;
  request_status = spread earlier.request_status later.request_status;
  request_updated_at = spread earlier.request_updated_at later.request_updated_at;
  title = spread earlier.title later.title;
  description = spread earlier.description later.description;
  image_url = spread earlier.image_url later.image_url;
  studio_id = spread earlier.studio_id later.studio_id;
  studio_name = spread earlier.studio_name later.studio_name;
  studio_image_url = spread earlier.studio_image_url later.studio_image_url;
  release_date = spread earlier.release_date later.release_date;
  duration = spread earlier.duration later.duration;
  whisparr_movie_id = spread earlier.whisparr_movie_id later.whisparr_movie_id;
  whisparr_has_file = spread earlier.whisparr_has_file later.whisparr_has_file;
  whisparr_queue_position = spread earlier.whisparr_queue_position later.whisparr_queue_position;
  whisparr_queue_status = spread earlier.whisparr_queue_status later.whisparr_queue_status;
  whisparr_queue_state = spread earlier.whisparr_queue_state later.whisparr_queue_state;
  whisparr_error_message = spread earlier.whisparr_error_message later.whisparr_error_message;
  stash_available = spread earlier.stash_available later.stash_available;
  metadata_hydration_state = spread earlier.metadata_hydration_state later.metadata_hydration_state;
  metadata_last_synced_at = spread earlier.metadata_last_synced_at later.metadata_last_synced_at;
  metadata_retry_after_at = spread earlier.metadata_retry_after_at later.metadata_retry_after_at;
  whisparr_last_synced_at = spread earlier.whisparr_last_synced_at later.whisparr_last_synced_at;
  stash_last_synced_at = spread earlier.stash_last_synced_at later.stash_last_synced_at;
  last_synced_at = spread earlier.last_synced_at later.last_synced_at;
}

-- The columns of a row that is not there: what `existing?.column ?? …` falls back on.
abbrev pub blank_row : SceneIndexRow
blank_row = record {
  request_status = none;
  request_updated_at = none;
  title = none;
  description = none;
  image_url = none;
  studio_id = none;
  studio_name = none;
  studio_image_url = none;
  release_date = none;
  duration = none;
  whisparr_movie_id = none;
  whisparr_has_file = none;
  whisparr_queue_position = none;
  whisparr_queue_status = none;
  whisparr_queue_state = none;
  whisparr_error_message = none;
  stash_available = none;
  metadata_hydration_state = pending;
  metadata_last_synced_at = none;
  metadata_retry_after_at = none;
  whisparr_last_synced_at = none;
  stash_last_synced_at = none;
  last_synced_at = none;
  computed_lifecycle = SceneState.not_requested;
  lifecycle_sort_order = 999;
}

abbrev pub or_blank : Option SceneIndexRow → SceneIndexRow
or_blank none = blank_row
or_blank (some row) = row

-- The movie that a row names, for the resolver.
abbrev pub movie_of : Text → SceneIndexRow → Option WhisparrMovieLookup
movie_of id row = elim row.whisparr_movie_id [
  | none ↦ none
  | some movie_id ↦
      some (record { movie_id = movie_id; stash_id = id; has_file = is_true row.whisparr_has_file })
]

-- A missing or empty status is falsy.
unfoldable pub synthesize_queue_items : SceneIndexRow → List QueueItem
synthesize_queue_items row = elim row.whisparr_movie_id [
  | none ↦ []
  | some movie_id ↦ elim row.whisparr_queue_status [
    | none ↦ []
    | some [] ↦ []
    | some (c ∷ s) ↦
        record {
          movie_id = movie_id;
          status = some (c ∷ s);
          tracked_download_state = row.whisparr_queue_state;
          tracked_download_status = none;
          error_message = row.whisparr_error_message;
        }
        ∷ []
  ]
]

unfoldable pub compute_lifecycle : Text → SceneIndexRow → Option (List QueueItem) → SceneState
unfolding synthesize_queue_items
compute_lifecycle id row queue_items =
    resolve_scene_status (movie_of id row)
      (elim queue_items [ none ↦ synthesize_queue_items row | some items ↦ items ])
      (is_true row.stash_available) row.request_status

unfoldable pub lifecycle_sort_order : SceneState → ℕ
lifecycle_sort_order SceneState.failed = 0
lifecycle_sort_order SceneState.downloading = 1
lifecycle_sort_order SceneState.import_pending = 2
lifecycle_sort_order SceneState.requested = 3
lifecycle_sort_order SceneState.available = 90
lifecycle_sort_order SceneState.not_requested = 100

-- `merged`, before its lifecycle is computed.
unfoldable pub patched : Option SceneIndexRow → SceneIndexPatch → SceneIndexRow
unfolding pick_value
patched existing patch =
    let old = or_blank existing in
    record {
      request_status = pick_value patch.request_status old.request_status;
      request_updated_at = pick_value patch.request_updated_at old.request_updated_at;
      title = pick_value patch.title old.title;
      description = pick_value patch.description old.description;
      image_url = pick_value patch.image_url old.image_url;
      studio_id = pick_value patch.studio_id old.studio_id;
      studio_name = pick_value patch.studio_name old.studio_name;
      studio_image_url = pick_value patch.studio_image_url old.studio_image_url;
      release_date = pick_value patch.release_date old.release_date;
      duration = pick_value patch.duration old.duration;
      whisparr_movie_id = pick_value patch.whisparr_movie_id old.whisparr_movie_id;
      whisparr_has_file = pick_value patch.whisparr_has_file old.whisparr_has_file;
      whisparr_queue_position =
          pick_value patch.whisparr_queue_position old.whisparr_queue_position;
      whisparr_queue_status = pick_value patch.whisparr_queue_status old.whisparr_queue_status;
      whisparr_queue_state = pick_value patch.whisparr_queue_state old.whisparr_queue_state;
      whisparr_error_message = pick_value patch.whisparr_error_message old.whisparr_error_message;
      stash_available = pick_value patch.stash_available old.stash_available;
      metadata_hydration_state =
          pick_value patch.metadata_hydration_state old.metadata_hydration_state;
      metadata_last_synced_at =
          pick_value patch.metadata_last_synced_at old.metadata_last_synced_at;
      metadata_retry_after_at =
          pick_value patch.metadata_retry_after_at old.metadata_retry_after_at;
      whisparr_last_synced_at =
          pick_value patch.whisparr_last_synced_at old.whisparr_last_synced_at;
      stash_last_synced_at = pick_value patch.stash_last_synced_at old.stash_last_synced_at;
      last_synced_at = pick_value patch.last_synced_at old.last_synced_at;
      computed_lifecycle = SceneState.not_requested;
      lifecycle_sort_order = 999;
    }

abbrev pub with_lifecycle : SceneIndexRow → SceneState → SceneIndexRow
with_lifecycle row state = record row {
  computed_lifecycle = state;
  lifecycle_sort_order = lifecycle_sort_order state;
}

unfoldable pub build_scene_index_upsert_data :
    Option SceneIndexRow → SceneIndexPatch → Option (List QueueItem) → SceneIndexRow
unfolding patched compute_lifecycle
build_scene_index_upsert_data existing patch queue_items =
    let merged = patched existing patch in
    with_lifecycle merged (compute_lifecycle patch.stash_id merged queue_items)
