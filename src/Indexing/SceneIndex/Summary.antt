-- ===== src/Indexing/SceneIndex/Summary.antt =====
-- The counters over the index and how a batch of rows moves them: the summary methods of
-- apps/sp-api/src/indexing/indexing.service.ts over the model `SceneIndexSummary` of
-- prisma/schema.prisma.
use stasharr_portal.Prelude.{
  ℕ, Bool, true, false, ◌||◌, Option, none, some, List, [], ◌∷◌, ◌==◌, is_some,
}
use stasharr_portal.Prelude.Text.{Text, eq_text}
use stasharr_portal.Prelude.Dict.{Dict, get}
use stasharr_portal.Prelude.Int.{ℤ, pos, diff, ◌+ℤ◌, is_nonzero}
use stasharr_portal.SceneStatus.{SceneState}
use stasharr_portal.Indexing.SceneIndex.{
  SceneIndexRow, MetadataHydrationState, pending, failed_retryable,
}
use stasharr_portal.Database.{hits}

-- A row of `SceneIndexSummary` without its key, and `SceneIndexSummaryDelta`.
pub record SceneIndexSummary : Type 0 where
  pub indexed_scenes : ℤ
  pub acquisition_tracked_scenes : ℤ
  pub requested_count : ℤ
  pub downloading_count : ℤ
  pub import_pending_count : ℤ
  pub failed_count : ℤ
  pub metadata_pending_count : ℤ
  pub metadata_retryable_count : ℤ
  pub last_index_write_at : Option ℕ

-- `===` on the enums.
abbrev pub lifecycle_code : SceneState → ℕ
lifecycle_code SceneState.not_requested = 0
lifecycle_code SceneState.requested = 1
lifecycle_code SceneState.downloading = 2
lifecycle_code SceneState.import_pending = 3
lifecycle_code SceneState.available = 4
lifecycle_code SceneState.failed = 5

abbrev pub metadata_code : MetadataHydrationState → ℕ
metadata_code pending = 0
metadata_code MetadataHydrationState.hydrated = 1
metadata_code failed_retryable = 2

unfoldable pub has_lifecycle : SceneState → SceneIndexRow → Bool
has_lifecycle target row = lifecycle_code row.computed_lifecycle == lifecycle_code target

unfoldable pub has_metadata_state : MetadataHydrationState → SceneIndexRow → Bool
has_metadata_state target row = metadata_code row.metadata_hydration_state == metadata_code target

-- `ACQUISITION_LIFECYCLES`
unfoldable pub is_acquisition_lifecycle : SceneState → Bool
is_acquisition_lifecycle SceneState.requested = true
is_acquisition_lifecycle SceneState.downloading = true
is_acquisition_lifecycle SceneState.import_pending = true
is_acquisition_lifecycle SceneState.failed = true
is_acquisition_lifecycle SceneState.not_requested = false
is_acquisition_lifecycle SceneState.available = false

unfoldable pub in_acquisition : SceneIndexRow → Bool
in_acquisition row = is_acquisition_lifecycle row.computed_lifecycle

-- `(next === target ? 1 : 0) - (previous === target ? 1 : 0)`, where no previous row is none.
unfoldable pub count_delta : (SceneIndexRow → Bool) → SceneIndexRow → Option SceneIndexRow → ℤ
count_delta p next existing = diff (hits p (some next)) (hits p existing)

abbrev pub lifecycle_count_delta : SceneIndexRow → Option SceneIndexRow → SceneState → ℤ
lifecycle_count_delta next existing target = count_delta (has_lifecycle target) next existing

abbrev pub metadata_state_count_delta :
    SceneIndexRow → Option SceneIndexRow → MetadataHydrationState → ℤ
metadata_state_count_delta next existing target =
    count_delta (has_metadata_state target) next existing

abbrev pub one_if_new : Option SceneIndexRow → ℤ
one_if_new none = pos 1
one_if_new (some _) = pos 0

-- The body of `nextRows.forEach`.
unfoldable pub add_row :
    SceneIndexSummary → SceneIndexRow → Option SceneIndexRow → SceneIndexSummary
add_row delta next existing = record delta {
  indexed_scenes = delta.indexed_scenes +ℤ one_if_new existing;
  acquisition_tracked_scenes =
      delta.acquisition_tracked_scenes +ℤ count_delta in_acquisition next existing;
  requested_count =
      delta.requested_count +ℤ lifecycle_count_delta next existing SceneState.requested;
  downloading_count =
      delta.downloading_count +ℤ lifecycle_count_delta next existing SceneState.downloading;
  import_pending_count =
      delta.import_pending_count +ℤ lifecycle_count_delta next existing SceneState.import_pending;
  failed_count = delta.failed_count +ℤ lifecycle_count_delta next existing SceneState.failed;
  metadata_pending_count =
      delta.metadata_pending_count +ℤ metadata_state_count_delta next existing pending;
  metadata_retryable_count =
      delta.metadata_retryable_count +ℤ metadata_state_count_delta next existing failed_retryable;
}

abbrev pub zero_delta : Option ℕ → SceneIndexSummary
zero_delta at = record {
  indexed_scenes = pos 0;
  acquisition_tracked_scenes = pos 0;
  requested_count = pos 0;
  downloading_count = pos 0;
  import_pending_count = pos 0;
  failed_count = pos 0;
  metadata_pending_count = pos 0;
  metadata_retryable_count = pos 0;
  last_index_write_at = at;
}

-- `chunk[index]` is the patch that the row was built from, so the row is looked up by its id.
unfoldable pub add_rows :
    Dict Text SceneIndexRow → SceneIndexSummary → List (Text × SceneIndexRow) → SceneIndexSummary
add_rows existing delta [] = delta
add_rows existing delta ((id, next) ∷ rows) =
    add_rows existing (add_row delta next (get id existing)) rows

unfoldable pub build_scene_index_summary_delta :
    ℕ → List (Text × SceneIndexRow) → Dict Text SceneIndexRow → SceneIndexSummary
build_scene_index_summary_delta now rows existing =
    add_rows existing (zero_delta (elim rows [ [] ↦ none | _ ∷ _ ↦ some now ])) rows

-- `{ increment }` on every counter.
unfoldable pub build_scene_index_summary_delta_update :
    SceneIndexSummary → SceneIndexSummary → SceneIndexSummary
build_scene_index_summary_delta_update delta summary = record {
  indexed_scenes = summary.indexed_scenes +ℤ delta.indexed_scenes;
  acquisition_tracked_scenes =
      summary.acquisition_tracked_scenes +ℤ delta.acquisition_tracked_scenes;
  requested_count = summary.requested_count +ℤ delta.requested_count;
  downloading_count = summary.downloading_count +ℤ delta.downloading_count;
  import_pending_count = summary.import_pending_count +ℤ delta.import_pending_count;
  failed_count = summary.failed_count +ℤ delta.failed_count;
  metadata_pending_count = summary.metadata_pending_count +ℤ delta.metadata_pending_count;
  metadata_retryable_count = summary.metadata_retryable_count +ℤ delta.metadata_retryable_count;
  last_index_write_at = delta.last_index_write_at;
}

unfoldable pub has_summary_delta : SceneIndexSummary → Bool
has_summary_delta delta =
    is_nonzero delta.indexed_scenes
    || is_nonzero delta.acquisition_tracked_scenes
    || is_nonzero delta.requested_count
    || is_nonzero delta.downloading_count
    || is_nonzero delta.import_pending_count
    || is_nonzero delta.failed_count
    || is_nonzero delta.metadata_pending_count
    || is_nonzero delta.metadata_retryable_count
    || is_some delta.last_index_write_at
