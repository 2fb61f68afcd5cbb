-- ===== src/Requests.antt =====
-- Requests of scenes, apps/sp-api/src/requests/requests.service.ts. What the catalog and Whisparr
-- answer is a parameter; the tables, the index and what is sent to Whisparr are the state.
use stasharr_portal.Prelude.{
  ℕ, Bool, false, not, Option, none, some, List, [], ◌∷◌, ◌==◌, if◌then◌else◌, any, all, true,
}
use stasharr_portal.Prelude.Text.{Text, text, text_eq, eq_text, trim}
use stasharr_portal.Prelude.Results.{
  Result, ok, err, HttpError, not_found, conflict, bad_request, internal, Handler, and_then, ◌>>=◌,
  ◌>>◌, return, throw,
}
use stasharr_portal.Database.{Table}
use stasharr_portal.SceneStatus.{RequestStatus, WhisparrMovieLookup}
use stasharr_portal.Catalog.Selection.{Integration, is_true_flag, is_configured}
use stasharr_portal.Catalog.Service.{get_configured_catalog_provider}
use stasharr_portal.Indexing.SyncState.{Thrown}
use stasharr_portal.Indexing.SceneIndex.{Field, undefined, value}
use stasharr_portal.Indexing.SceneIndex.Store.{IndexDatabase, Store}
use stasharr_portal.Indexing.SceneIndex.Seed.{SeedInput, seed_requested_scene}
pub mod Noted
pub mod Submitted
mod Tests

-- A row of the `Request` table without its key `stashId`.
pub record RequestRow : Type 0 where
  pub status : RequestStatus
  pub updated_at : ℕ

-- `StashdbSceneMetadata`, as far as it is read.
pub record CatalogScene : Type 0 where
  pub id : Text
  pub title : Text
  pub details : Option Text
  pub image_url : Option Text
  pub studio_id : Option Text
  pub studio_name : Option Text
  pub studio_image_url : Option Text
  pub release_date : Option Text
  pub duration : Option ℕ

pub record RootFolder : Type 0 where
  pub path : Text
  pub accessible : Bool

-- `SubmitSceneRequestDto`.
pub record Submission : Type 0 where
  pub monitored : Bool
  pub root_folder_path : Text
  pub search_for_movie : Bool
  pub quality_profile_id : ℕ
  pub tags : List ℕ

pub record CreateMovie : Type 0 where
  pub title : Text
  pub studio : Text
  pub foreign_id : Text
  pub monitored : Bool
  pub root_folder_path : Text
  pub search_for_movie : Bool
  pub quality_profile_id : ℕ
  pub tags : List ℕ

pub record Config : Type 0 where
  pub base_url : Text
  pub api_key : Option Text

-- The adapters of the catalog and of Whisparr; the quality profiles and the tags by their ids.
pub record Adapters : Type 0 where
  pub get_scene_by_id : Text → Config → Result CatalogScene
  pub find_movie_by_stash_id : Text → Config → Result (Option WhisparrMovieLookup)
  pub get_root_folders : Config → Result (List RootFolder)
  pub get_quality_profiles : Config → Result (List ℕ)
  pub get_tags : Config → Result (List ℕ)
  pub create_movie : CreateMovie → Config → Result (Option ℕ)

pub record RequestsDatabase : Type 1 where
  pub index : IndexDatabase
  pub requests : Table Text RequestRow

-- `created` holds what was sent to Whisparr's `createMovie`, the last first, and `refreshed` the
-- refreshes that were asked for.
pub record World (db : RequestsDatabase) : Type 0 where
  pub index : Store db.index
  pub requests : db.requests.Rows
  pub created : List CreateMovie
  pub refreshed : List (Text × Text)

pub record SubmitResponse : Type 0 where
  pub already_exists : Bool
  pub stash_id : Text
  pub whisparr_movie_id : Option ℕ

-- `getIntegration` on what `findOne` gives.
abbrev created_or_conflict : Result Integration → Result Integration
created_or_conflict (ok integration) = ok integration
created_or_conflict (err not_found) = err conflict
created_or_conflict (err e) = err e

abbrev config_of : Option Text → Text → Result Config
config_of api_key [] = err bad_request
config_of api_key (c ∷ s) = ok (record { base_url = c ∷ s; api_key = api_key })

abbrev checked_config : Integration → Result Config
checked_config integration =
    if not (is_true_flag integration.enabled)
    then err conflict
    else if not (is_configured integration.status)
    then err conflict
    else config_of integration.api_key
        (elim integration.base_url [ none ↦ [] | some url ↦ trim url ])

abbrev pub bind {ℓ κ} : {A : Type ℓ} {B : Type κ} → Result A → (A → Result B) → Result B
bind (ok a) k = k a
bind (err e) k = err e

unfoldable pub get_whisparr_config : Result Integration → Result Config
get_whisparr_config found = bind (created_or_conflict found) checked_config

unfoldable pub get_active_catalog_config : List Integration → Result Config
get_active_catalog_config integrations =
    bind (get_configured_catalog_provider integrations)
      (λ provider. ok (record { base_url = provider.base_url; api_key = provider.api_key }))

abbrev pub find_folder : Text → List RootFolder → Option RootFolder
find_folder path [] = none
find_folder path (folder ∷ folders) =
    if text_eq folder.path path then some folder else find_folder path folders

abbrev pub one_of : List ℕ → ℕ → Bool
one_of ids id = any (λ other. other == id) ids

-- The first two checks, of both methods.
abbrev pub check_offer : List RootFolder → List ℕ → Result (Unit {0})
check_offer folders profiles =
    if not (any (λ folder. folder.accessible) folders)
    then err conflict
    else elim profiles [ [] ↦ err conflict | _ ∷ _ ↦ ok tt ]

-- The checks of what was selected.
abbrev pub check_selection : List RootFolder → List ℕ → List ℕ → Submission → Result (Unit {0})
check_selection folders profiles tags dto = elim (find_folder dto.root_folder_path folders) [
  | none ↦ err bad_request
  | some folder ↦
      if not folder.accessible
      then err bad_request
      else if not (one_of profiles dto.quality_profile_id)
      then err bad_request
      else if not (all (one_of tags) dto.tags)
      then err bad_request
      else ok tt
]

abbrev pub solid_text : Text → Result Text
solid_text [] = err conflict
solid_text (c ∷ s) = ok (c ∷ s)

abbrev pub nonblank_id : Text → Result Text
nonblank_id [] = err bad_request
nonblank_id (c ∷ s) = ok (c ∷ s)

-- The movie's id where Whisparr gives one.
abbrev pub given_id : Option ℕ → Field (Option ℕ)
given_id none = undefined
given_id (some id) = value (some id)

module _ (db : RequestsDatabase) (adapters : Adapters) where
  abbrev pub lift : {A : Type 0} → Result A → Handler (World db) A
  lift r w = (w, r)

  abbrev pub requested_row : ℕ → RequestRow
  requested_row now = record { status = RequestStatus.requested; updated_at = now }

  unfoldable pub upsert_local_request_row : Text → ℕ → Handler (World db) RequestRow
  upsert_local_request_row id now w = (
    record w {
      requests = db.requests.upsert id (requested_row now) (λ _. requested_row now) w.requests;
    },
    ok (requested_row now),
  )

  abbrev pub of_error : Option Thrown → Result (Unit {0})
  of_error none = ok tt
  of_error (some _) = err internal

  -- An error of the index is an answer 500.
  unfoldable pub seed : ℕ → (ℕ → ℕ → Option Thrown) → SeedInput → Handler (World db) (Unit {0})
  seed now outcomes input w =
      let (index, error) = seed_requested_scene db.index now outcomes input w.index in
      (record w { index = index }, of_error error)

  abbrev pub refresh : Text → Text → Handler (World db) (Unit {0})
  refresh id reason w = (record w { refreshed = (id, reason) ∷ w.refreshed }, ok tt)

  unfoldable pub send : CreateMovie → Config → Handler (World db) (Option ℕ)
  send movie config w =
      (record w { created = movie ∷ w.created }, adapters.create_movie movie config)

  abbrev pub seed_of : Text → RequestRow → CatalogScene → Field (Option ℕ) → Bool → SeedInput
  seed_of id request scene movie_id has_file = record {
    stash_id = id;
    request_status = request.status;
    request_updated_at = request.updated_at;
    title = some scene.title;
    description = scene.details;
    image_url = scene.image_url;
    studio_id = scene.studio_id;
    studio_name = scene.studio_name;
    studio_image_url = scene.studio_image_url;
    release_date = scene.release_date;
    duration = scene.duration;
    whisparr_movie_id = movie_id;
    whisparr_has_file = value (some has_file);
  }

  -- The request row, the row of the index and the refresh, which both ways end with.
  unfoldable pub note_request :
      ℕ
      → (ℕ → ℕ → Option Thrown)
      → Text
      → CatalogScene
      → Field (Option ℕ)
      → Bool
      → Text
      → Handler (World db) (Unit {0})
  note_request now outcomes id scene movie_id has_file reason = do
    request ← upsert_local_request_row id now
    seed now outcomes (seed_of id request scene movie_id has_file)
    refresh id reason

  unfoldable pub request_existing :
      ℕ
      → (ℕ → ℕ → Option Thrown)
      → Text
      → CatalogScene
      → WhisparrMovieLookup
      → Handler (World db) SubmitResponse
  request_existing now outcomes id scene movie = do
    note_request now outcomes id scene (value (some movie.movie_id)) movie.has_file
        (text "request-existing-movie")
    return
        (record { already_exists = true; stash_id = id; whisparr_movie_id = some movie.movie_id })

  abbrev pub movie_for : Text → Text → Text → Submission → CreateMovie
  movie_for id title studio dto = record {
    title = title;
    studio = studio;
    foreign_id = id;
    monitored = dto.monitored;
    root_folder_path = dto.root_folder_path;
    search_for_movie = dto.search_for_movie;
    quality_profile_id = dto.quality_profile_id;
    tags = dto.tags;
  }

  unfoldable pub request_new :
      ℕ
      → (ℕ → ℕ → Option Thrown)
      → Text
      → CatalogScene
      → Text
      → Text
      → Submission
      → Config
      → Handler (World db) SubmitResponse
  request_new now outcomes id scene title studio dto config = do
    folders ← lift (adapters.get_root_folders config)
    profiles ← lift (adapters.get_quality_profiles config)
    tags ← lift (adapters.get_tags config)
    lift (check_offer folders profiles)
    lift (check_selection folders profiles tags dto)
    movie_id ← send (movie_for id title studio dto) config
    note_request now outcomes id scene (given_id movie_id) false (text "request-submitted")
    return (record { already_exists = false; stash_id = id; whisparr_movie_id = movie_id })

  abbrev pub request_as :
      ℕ
      → (ℕ → ℕ → Option Thrown)
      → Text
      → CatalogScene
      → Text
      → Text
      → Submission
      → Config
      → Option WhisparrMovieLookup
      → Handler (World db) SubmitResponse
  request_as now outcomes id scene title studio dto config (some movie) =
      request_existing now outcomes id scene movie
  request_as now outcomes id scene title studio dto config none =
      request_new now outcomes id scene title studio dto config

  -- On the rows of the integrations, what `findOne` gives for Whisparr, and the time.
  unfoldable pub submit_scene_request :
      List Integration
      → Result Integration
      → ℕ
      → (ℕ → ℕ → Option Thrown)
      → Text
      → Submission
      → Handler (World db) SubmitResponse
  submit_scene_request integrations whisparr now outcomes stash_id dto = do
    id ← lift (nonblank_id (trim stash_id))
    config ← lift (get_whisparr_config whisparr)
    catalog ← lift (get_active_catalog_config integrations)
    scene ← lift (adapters.get_scene_by_id id catalog)
    title ← lift (solid_text (trim scene.title))
    studio ← lift (solid_text (elim scene.studio_name [ none ↦ [] | some name ↦ trim name ]))
    existing ← lift (adapters.find_movie_by_stash_id id config)
    request_as now outcomes id scene title studio dto config existing

pub record RequestOptions : Type 0 where
  pub stash_id : Text
  pub title : Text
  pub studio : Option Text
  pub monitored : Bool
  pub search_for_movie : Bool
  pub root_folders : List RootFolder
  pub quality_profiles : List ℕ
  pub tags : List ℕ

-- The reads of `getRequestOptions` change nothing.
unfoldable pub get_request_options :
    Adapters → List Integration → Result Integration → Text → Result RequestOptions
get_request_options adapters integrations whisparr stash_id =
    bind (nonblank_id (trim stash_id)) (λ id. bind (get_whisparr_config whisparr) (λ config.
      bind (get_active_catalog_config integrations) (λ catalog.
        bind (adapters.get_scene_by_id id catalog) (λ scene.
          bind (adapters.get_root_folders config) (λ folders.
            bind (adapters.get_quality_profiles config) (λ profiles.
              bind (adapters.get_tags config) (λ tags. bind (check_offer folders profiles) (λ _.
                ok (record {
                  stash_id = scene.id;
                  title = scene.title;
                  studio = scene.studio_name;
                  monitored = true;
                  search_for_movie = true;
                  root_folders = folders;
                  quality_profiles = profiles;
                  tags = tags;
                })))))))))
