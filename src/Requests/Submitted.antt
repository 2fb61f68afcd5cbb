-- ===== src/Requests/Submitted.antt =====
-- What an accepted request leaves behind: apps/sp-api/src/requests/requests.service.ts with the
-- index of apps/sp-api/src/indexing/indexing.service.ts.
use stasharr_portal.Prelude.{
  ℕ, ◌≡◌, refl, ap, ◌∙◌, ◌≢◌, Bool, Option, none, some, [], sym, true, false, ◌∷◌, List,
}
use mathlib.Core.Path.{subst}
use stasharr_portal.Prelude.Text.{trim_idem, Text, eq_text, trim, text}
use stasharr_portal.Prelude.Results.{return, Result, ok, err, and_then}
use stasharr_portal.Catalog.Selection.{Integration}
use stasharr_portal.Indexing.SyncState.{Thrown}
use stasharr_portal.Indexing.SceneIndex.{value, Field}
use stasharr_portal.Indexing.SceneIndex.Sound.{NotStale}
use stasharr_portal.Requests.{
  given_id, solid_text, get_whisparr_config, get_active_catalog_config, nonblank_id, request_as,
  submit_scene_request, check_offer, check_selection, RequestsDatabase, World, Adapters,
  CatalogScene, note_request, CreateMovie, SubmitResponse, request_existing, request_new,
  WhisparrMovieLookup, send, Submission, Config, movie_for, lift,
}
use stasharr_portal.Requests.Noted.{Noted, note_request-Noted, and_then_ok}

module _ (db : RequestsDatabase) (adapters : Adapters) where
  -- The movie that is sent for the scene, as it was selected.
  pub record SentMovie (id : Text) (dto : Submission) (movie : CreateMovie) : Type 0 where
    pub of_scene : movie.foreign_id ≡ id
    pub folder : movie.root_folder_path ≡ dto.root_folder_path
    pub profile : movie.quality_profile_id ≡ dto.quality_profile_id
    pub tags : movie.tags ≡ dto.tags

  -- What goes to Whisparr, and what the answer says of it, by the movie that Whisparr had.
  abbrev Sent :
      Text → Submission → Option WhisparrMovieLookup → World db → World db → SubmitResponse → Type 0
  Sent id dto (some movie) before after response =
      (after.created ≡ before.created)
      × ((response.already_exists ≡ true) × (response.whisparr_movie_id ≡ some movie.movie_id))
  Sent id dto none before after response =
      ((movie : CreateMovie) × (SentMovie id dto movie × (after.created ≡ movie ∷ before.created)))
      × (response.already_exists ≡ false)

  pub record Accepted (id : Text) (dto : Submission) (existing : Option WhisparrMovieLookup)
      (before after : World db) (response : SubmitResponse) : Type 0 where
    pub of_scene : response.stash_id ≡ id
    pub noted : Noted db adapters id after
    pub sent : Sent id dto existing before after response

  Sent-later :
      (id : Text) (dto : Submission) (existing : Option WhisparrMovieLookup)
      (before w after : World db) (response : SubmitResponse)
      → after.created ≡ w.created
      → Sent id dto existing before w response
      → Sent id dto existing before after response
  Sent-later id dto (some movie) before w after response e (h, told) = (e ∙ h, told)
  Sent-later id dto none before w after response e ((movie, (own, h)), told) =
      ((movie, (own, e ∙ h)), told)

  abbrev Ends :
      Text
      → Submission
      → Option WhisparrMovieLookup
      → World db
      → World db × Result SubmitResponse
      → Type 0
  Ends id dto existing before (after, ok response) = Accepted id dto existing before after response
  Ends id dto existing before (after, err e) = Unit

  -- The last step of both ways.
  noted_then :
      (now : ℕ) (outcomes : ℕ → ℕ → Option Thrown) (id : Text) (scene : CatalogScene)
      (movie_id : Field (Option ℕ)) (has_file : Bool) (reason : Text) (dto : Submission)
      (existing : Option WhisparrMovieLookup) (before w after : World db)
      (made response : SubmitResponse)
      → trim id ≡ id
      → id ≢ []
      → NotStale db.index w.index
      → made.stash_id ≡ id
      → Sent id dto existing before w made
      → and_then
          (note_request db adapters now outcomes id scene movie_id has_file reason w)
          (λ _. return made)
        ≡ (after, ok response)
      → Accepted id dto existing before after response
  noted_then now outcomes id scene movie_id has_file reason dto existing before w after made
        response e nonblank stale own sent h =
      let noting : World db × Result (Unit {0}) =
        note_request db adapters now outcomes id scene movie_id has_file reason w in
      let (u, (passed, rest)) = and_then_ok noting (λ _. return made) after response h in
      let noted : Noted db adapters id noting.0 × (noting.0.created ≡ w.created) =
        note_request-Noted db adapters now outcomes id scene movie_id has_file reason w noting.0 u e
          nonblank stale (ap (λ r. (noting.0, r)) passed) in
      subst (Ends id dto existing before) rest (record {
        of_scene = own;
        noted = noted.0;
        sent = Sent-later id dto existing before w noting.0 made noted.1 sent;
      })

  request_existing-Accepted :
      (now : ℕ) (outcomes : ℕ → ℕ → Option Thrown) (id : Text) (scene : CatalogScene)
      (movie : WhisparrMovieLookup) (dto : Submission) (w after : World db)
      (response : SubmitResponse)
      → trim id ≡ id
      → id ≢ []
      → NotStale db.index w.index
      → request_existing db adapters now outcomes id scene movie w ≡ (after, ok response)
      → Accepted id dto (some movie) w after response
  unfolding request_existing
  request_existing-Accepted now outcomes id scene movie dto w after response e nonblank stale h =
      noted_then now outcomes id scene (value (some movie.movie_id)) movie.has_file
        (text "request-existing-movie") dto (some movie) w w after
        (record { already_exists = true; stash_id = id; whisparr_movie_id = some movie.movie_id })
        response e nonblank stale refl (refl, (refl, refl)) h

  request_new-Accepted :
      (now : ℕ) (outcomes : ℕ → ℕ → Option Thrown) (id : Text) (scene : CatalogScene)
      (title studio : Text) (dto : Submission) (config : Config) (w after : World db)
      (response : SubmitResponse)
      → trim id ≡ id
      → id ≢ []
      → NotStale db.index w.index
      → request_new db adapters now outcomes id scene title studio dto config w
        ≡ (after, ok response)
      → Accepted id dto none w after response
  unfolding request_new send
  request_new-Accepted now outcomes id scene title studio dto config w after response e nonblank
        stale h =
      let (folders, (_, h1)) =
        and_then_ok (lift db adapters (adapters.get_root_folders config) w) _ after response h in
      let (profiles, (_, h2)) =
        and_then_ok (lift db adapters (adapters.get_quality_profiles config) w) _ after response
          h1 in
      let (tags, (_, h3)) =
        and_then_ok (lift db adapters (adapters.get_tags config) w) _ after response h2 in
      let (_, (_, h4)) =
        and_then_ok (lift db adapters (check_offer folders profiles) w) _ after response h3 in
      let (_, (_, h5)) =
        and_then_ok (lift db adapters (check_selection folders profiles tags dto) w) _ after
          response h4 in
      let movie : CreateMovie = movie_for db adapters id title studio dto in
      let (movie_id, (_, h6)) = and_then_ok (send db adapters movie config w) _ after response h5 in
      noted_then now outcomes id scene (given_id movie_id) false (text "request-submitted") dto none
        w (record w { created = movie ∷ w.created }) after
        (record { already_exists = false; stash_id = id; whisparr_movie_id = movie_id }) response e
        nonblank stale refl
        (
          (movie, (record { of_scene = refl; folder = refl; profile = refl; tags = refl }, refl)),
          refl,
        )
        h6

  request_as-Accepted :
      (now : ℕ) (outcomes : ℕ → ℕ → Option Thrown) (id : Text) (scene : CatalogScene)
      (title studio : Text) (dto : Submission) (config : Config)
      (existing : Option WhisparrMovieLookup) (w after : World db) (response : SubmitResponse)
      → trim id ≡ id
      → id ≢ []
      → NotStale db.index w.index
      → request_as db adapters now outcomes id scene title studio dto config existing w
        ≡ (after, ok response)
      → Accepted id dto existing w after response
  request_as-Accepted now outcomes id scene title studio dto config none w after response e nonblank
        stale h =
      request_new-Accepted now outcomes id scene title studio dto config w after response e nonblank
        stale h
  request_as-Accepted now outcomes id scene title studio dto config (some movie) w after response e
        nonblank stale h =
      request_existing-Accepted now outcomes id scene movie dto w after response e nonblank stale h

nonblank_id_ok : (s id : Text) → nonblank_id s ≡ ok id → (s ≡ id) × (id ≢ [])
nonblank_id_ok [] id h = cc h
nonblank_id_ok (c ∷ s) id h =
    let same : c ∷ s ≡ id = ap (λ r. elim r [ ok t ↦ t | err _ ↦ [] ]) h in
    (same, λ z. cc (same ∙ z))

-- What is known of a request that was accepted: Whisparr was asked for the movie of the scene of the
-- trimmed id, and by its answer the movie was sent or not.
pub record Answered (db : RequestsDatabase) (adapters : Adapters) (whisparr : Result Integration)
    (id : Text) (dto : Submission) (before after : World db) (response : SubmitResponse)
    : Type 0 where
  pub config : Config
  pub configured : get_whisparr_config whisparr ≡ ok config
  pub existing : Option WhisparrMovieLookup
  pub asked : adapters.find_movie_by_stash_id id config ≡ ok existing
  pub accepted : Accepted db adapters id dto existing before after response

-- If the summary of the index counts rightly or is not there before, an accepted request is for the
-- scene of the trimmed id, the request's row and the scene's row in the index then say that it is
-- requested, and the summary is not stale. Where findMovieByStashId gave a movie, nothing was sent
-- to Whisparr and the answer names that movie; where it gave none, one movie of the scene with the
-- selected folder, profile and tags was sent.
pub submit_scene_request-Accepted :
    (db : RequestsDatabase) (adapters : Adapters) (integrations : List Integration)
    (whisparr : Result Integration) (now : ℕ) (outcomes : ℕ → ℕ → Option Thrown) (stash_id : Text)
    (dto : Submission) (w after : World db) (response : SubmitResponse)
    → NotStale db.index w.index
    → submit_scene_request db adapters integrations whisparr now outcomes stash_id dto w
      ≡ (after, ok response)
    → Answered db adapters whisparr (trim stash_id) dto w after response
unfolding submit_scene_request
submit_scene_request-Accepted db adapters integrations whisparr now outcomes stash_id dto w after
      response stale h =
    let (id, (named, h1)) =
      and_then_ok (lift db adapters (nonblank_id (trim stash_id)) w) _ after response h in
    let (config, (known, h2)) =
      and_then_ok (lift db adapters (get_whisparr_config whisparr) w) _ after response h1 in
    let (catalog, (_, h3)) =
      and_then_ok (lift db adapters (get_active_catalog_config integrations) w) _ after response
        h2 in
    let (scene, (_, h4)) =
      and_then_ok (lift db adapters (adapters.get_scene_by_id id catalog) w) _ after response h3 in
    let (title, (_, h5)) =
      and_then_ok (lift db adapters (solid_text (trim scene.title)) w) _ after response h4 in
    let (studio, (_, h6)) =
      and_then_ok
        (lift db adapters
          (solid_text (elim scene.studio_name [ none ↦ [] | some name ↦ trim name ])) w)
        _ after response h5 in
    let (existing, (asked, h7)) =
      and_then_ok (lift db adapters (adapters.find_movie_by_stash_id id config) w) _ after response
        h6 in
    let (same, nonblank) = nonblank_id_ok (trim stash_id) id named in
    let trimmed : trim id ≡ id = ap trim (sym same) ∙ (trim_idem stash_id ∙ same) in
    subst (λ j. Answered db adapters whisparr j dto w after response) (sym same)
      (record {
        config = config;
        configured = known;
        existing = existing;
        asked = asked;
        accepted =
            request_as-Accepted db adapters now outcomes id scene title studio dto config existing w
              after response trimmed nonblank stale h7;
      })
