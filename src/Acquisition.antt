-- ===== src/Acquisition.antt =====
-- The feed of the scenes on their way, apps/sp-api/src/acquisition/acquisition.service.ts, over the
-- index, the rows of the integrations and the time. The pages of `findMany` and what the integration
-- service finds are parameters and arguments; of the two URLs of an item the parts that they are
-- built from stand for them. The reads of one request see one state.
use stasharr_portal.Prelude.{
  ℕ, ◌-◌, ◌*◌, min, ◌≡◌, Bool, true, false, not, Option, none, some, List, [], ◌∷◌, map, ltb, leb,
  if◌then◌else◌, length, take, keep,
}
use stasharr_portal.Prelude.Text.{Text, text, eq_text, trim, is_empty}
use stasharr_portal.Prelude.Int.{ℤ, pos, negsuc}
use stasharr_portal.Prelude.Results.{Result, ok, err, HttpError, not_found, conflict, bad_request}
use stasharr_portal.SceneStatus.{SceneState}
use stasharr_portal.Indexing.SceneIndex.{
  SceneIndexRow, MetadataHydrationState, pending, hydrated, failed_retryable,
}
use stasharr_portal.Indexing.SceneIndex.Summary.{SceneIndexSummary, has_lifecycle, in_acquisition}
use stasharr_portal.Indexing.SceneIndex.Store.{IndexDatabase, Store}
use stasharr_portal.Indexing.SceneIndex.Snapshot.{get_scene_index_summary}
use stasharr_portal.Catalog.{CatalogProviderKey, stashdb}
use stasharr_portal.Catalog.Selection.{is_true_flag, Integration, is_configured}
pub mod Totals
mod Tests

pub data AcquisitionLifecycle : Type 0 where
  requested downloading import_pending failed : AcquisitionLifecycle

pub data AcquisitionLifecycleFilter : Type 0 where
  any_lifecycle : AcquisitionLifecycleFilter
  only : AcquisitionLifecycle → AcquisitionLifecycleFilter

abbrev pub scene_lifecycle : AcquisitionLifecycle → SceneState
scene_lifecycle requested = SceneState.requested
scene_lifecycle downloading = SceneState.downloading
scene_lifecycle import_pending = SceneState.import_pending
scene_lifecycle failed = SceneState.failed

pub record CountsByLifecycle : Type 0 where
  pub requested_total : ℤ
  pub downloading_total : ℤ
  pub import_pending_total : ℤ
  pub failed_total : ℤ

unfoldable pub to_counts_by_lifecycle : SceneIndexSummary → CountsByLifecycle
to_counts_by_lifecycle summary = record {
  requested_total = summary.requested_count;
  downloading_total = summary.downloading_count;
  import_pending_total = summary.import_pending_count;
  failed_total = summary.failed_count;
}

unfoldable pub get_lifecycle_total : CountsByLifecycle → AcquisitionLifecycle → ℤ
get_lifecycle_total counts requested = counts.requested_total
get_lifecycle_total counts downloading = counts.downloading_total
get_lifecycle_total counts import_pending = counts.import_pending_total
get_lifecycle_total counts failed = counts.failed_total

-- The test of the `where` clause.
unfoldable pub build_where_clause : AcquisitionLifecycleFilter → SceneIndexRow → Bool
build_where_clause any_lifecycle row = in_acquisition row
build_where_clause (only lifecycle) row = has_lifecycle (scene_lifecycle lifecycle) row

unfoldable pub needs_metadata_hydration : ℕ → SceneIndexRow → Bool
needs_metadata_hydration now row = elim row.metadata_hydration_state [
  | pending ↦ true
  | hydrated ↦ false
  | failed_retryable ↦ elim row.metadata_retry_after_at [ none ↦ true | some at ↦ leb at now ]
]

pub record WhisparrConfig : Type 0 where
  pub base_url : Text
  pub api_key : Option Text

-- The `catch` of `getWhisparrConfig`.
abbrev caught : HttpError → Result (Option WhisparrConfig)
caught bad_request = err bad_request
caught conflict = err conflict
caught _ = ok none

abbrev with_base_url : Option Text → Text → Result (Option WhisparrConfig)
with_base_url api_key [] = caught bad_request
with_base_url api_key (c ∷ s) = ok (some (record { base_url = c ∷ s; api_key = api_key }))

-- On what `findOne` gives for Whisparr.
unfoldable pub get_whisparr_config : Result Integration → Result (Option WhisparrConfig)
get_whisparr_config (err e) = caught e
get_whisparr_config (ok integration) =
    if not (is_true_flag integration.enabled)
    then ok none
    else if not (is_configured integration.status)
    then ok none
    else with_base_url integration.api_key
        (elim integration.base_url [ none ↦ [] | some url ↦ trim url ])

pub record AcquisitionSceneItem : Type 0 where
  pub id : Text
  pub title : Text
  pub description : Option Text
  pub image_url : Option Text
  -- The image whose size is set for the card.
  pub card_image : Option Text
  pub studio_id : Option Text
  pub studio : Option Text
  pub studio_image_url : Option Text
  pub release_date : Option Text
  pub duration : Option ℕ
  pub source : CatalogProviderKey
  pub status : SceneState
  pub queue_status : Option Text
  pub queue_state : Option Text
  pub error_message : Option Text
  -- The base URL and the movie of the link to Whisparr.
  pub whisparr_view : Option (Text × ℕ)

abbrev pub no_metadata : Text
no_metadata =
    text "Scene metadata is unavailable from the catalog provider configured for this instance."

-- An empty text is falsy.
abbrev present : Option Text → Option Text
present none = none
present (some []) = none
present (some (c ∷ s)) = some (c ∷ s)

abbrev title_or : Option Text → Text → Text
title_or none id = id
title_or (some title) id = elim (trim title) [ [] ↦ id | c ∷ s ↦ c ∷ s ]

abbrev view_of : Option Text → Option ℕ → Option (Text × ℕ)
view_of (some url) (some movie_id) = some (url, movie_id)
view_of _ _ = none

unfoldable pub to_acquisition_item :
    Text → SceneIndexRow → Option Text → CatalogProviderKey → AcquisitionSceneItem
to_acquisition_item id row whisparr_base_url source = record {
  id = id;
  title = title_or row.title id;
  description = elim row.description [
    | some description ↦ some description
    | none ↦ elim (present row.title) [ some _ ↦ none | none ↦ some no_metadata ]
  ];
  image_url = row.image_url;
  card_image = present row.image_url;
  studio_id = row.studio_id;
  studio = row.studio_name;
  studio_image_url = row.studio_image_url;
  release_date = row.release_date;
  duration = row.duration;
  source = source;
  status = row.computed_lifecycle;
  queue_status = row.whisparr_queue_status;
  queue_state = row.whisparr_queue_state;
  error_message = row.whisparr_error_message;
  whisparr_view = view_of (present whisparr_base_url) row.whisparr_movie_id;
}

-- `findMany` with `where`, `skip` and `take`, in the order of the feed: as many rows as are left
-- after those skipped, at most as many as are taken.
pub record AcquisitionDatabase : Type 1 where
  pub index : IndexDatabase
  pub find_page :
      (SceneIndexRow → Bool)
      → (skip take : ℕ) → index.scenes.table.Rows
      → List (Text × SceneIndexRow)
  pub length-find_page :
      (p : SceneIndexRow → Bool) (skip take : ℕ) (rows : index.scenes.table.Rows)
      → length (find_page p skip take rows) ≡ min take (index.scenes.count p rows - skip)

pub record AcquisitionScenesFeed : Type 0 where
  pub total : ℤ
  pub page : ℕ
  pub per_page : ℕ
  pub has_more : Bool
  pub counts_by_lifecycle : CountsByLifecycle
  pub items : List AcquisitionSceneItem
  -- The scenes whose metadata the feed asks for.
  pub hydrate : List Text

-- `n < total`
abbrev pub less : ℕ → ℤ → Bool
less n (pos m) = ltb n m
less n (negsuc _) = false

abbrev pub feed_total : AcquisitionLifecycleFilter → SceneIndexSummary → ℤ
feed_total any_lifecycle summary = summary.acquisition_tracked_scenes
feed_total (only lifecycle) summary = get_lifecycle_total (to_counts_by_lifecycle summary) lifecycle

abbrev pub base_url_of : Option WhisparrConfig → Option Text
base_url_of none = none
base_url_of (some config) = some config.base_url

abbrev pub or_stashdb : Option CatalogProviderKey → CatalogProviderKey
or_stashdb none = stashdb
or_stashdb (some key) = key

-- The response, once every read is done.
abbrev pub feed_of :
    ℕ
    → ℕ
    → ℕ
    → AcquisitionLifecycleFilter
    → List (Text × SceneIndexRow)
    → SceneIndexSummary
    → Option WhisparrConfig
    → Option CatalogProviderKey
    → AcquisitionScenesFeed
feed_of now page per_page lifecycle rows summary config provider =
    let total : ℤ = feed_total lifecycle summary in
    record {
      total = total;
      page = page;
      per_page = per_page;
      has_more = less (page * per_page) total;
      counts_by_lifecycle = to_counts_by_lifecycle summary;
      items =
          map (λ r. to_acquisition_item r.0 r.1 (base_url_of config) (or_stashdb provider)) rows;
      hydrate = map (λ r. r.0) (keep (λ r. needs_metadata_hydration now r.1) rows);
    }

-- `page` counts from 1.
unfoldable pub get_scenes_feed :
    (db : AcquisitionDatabase)
    → (now page per_page : ℕ) → AcquisitionLifecycleFilter
    → (whisparr : Result Integration) → Option CatalogProviderKey
    → Store db.index
    → Store db.index × Result AcquisitionScenesFeed
get_scenes_feed db now page per_page lifecycle whisparr provider store =
    let (after, summary) = get_scene_index_summary db.index store in
    let rows : List (Text × SceneIndexRow) =
      db.find_page (build_where_clause lifecycle) ((page - 1) * per_page) per_page
        store.scene_rows in
    (
      after,
      elim (get_whisparr_config whisparr) [
        | err e ↦ err e
        | ok config ↦ ok (feed_of now page per_page lifecycle rows summary config provider)
      ],
    )
