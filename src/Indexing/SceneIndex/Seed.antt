-- ===== src/Indexing/SceneIndex/Seed.antt =====
-- The row of a scene that was just requested, `seedRequestedScene` of
-- apps/sp-api/src/indexing/indexing.service.ts.
use stasharr_portal.Prelude.{
  ℕ, ◌≡◌, refl, sym, ap, ◌∙◌, ◌≢◌, inl, inr, Bool, true, Option, none, some, [], ◌∷◌, is_some,
}
use stasharr_portal.Prelude.Text.{Text, eq_text, trim, trim_idem, text_eq_refl}
use mathlib.Core.Option
use mathlib.Core.Path.{subst}
use stasharr_portal.SceneStatus.{RequestStatus}
use stasharr_portal.Indexing.SyncState.{Thrown}
use stasharr_portal.Indexing.SceneIndex.{
  SceneIndexPatch, SceneIndexRow, Field, absent, undefined, value, hydrated, empty_patch,
  pick_value, spread, overlay, patched, build_scene_index_upsert_data,
}
use stasharr_portal.Indexing.SceneIndex.Merge.{
  merge_patches_by_stash_id, patch_for, merge_patches_by_stash_id-patch_for,
}
use stasharr_portal.Indexing.SceneIndex.Store.{IndexDatabase, Store, the_row}
use stasharr_portal.Indexing.SceneIndex.Sound.{NotStale}
use stasharr_portal.Indexing.SceneIndex.Apply.{apply_scene_index_patches}
use stasharr_portal.Indexing.SceneIndex.Runs.{row_by}
use stasharr_portal.Indexing.SceneIndex.Invariant.{
  apply_scene_index_patches-NotStale, apply_scene_index_patches-RowEnd,
}

pub record SeedInput : Type 0 where
  pub stash_id : Text
  pub request_status : RequestStatus
  pub request_updated_at : ℕ
  pub title : Option Text
  pub description : Option Text
  pub image_url : Option Text
  pub studio_id : Option Text
  pub studio_name : Option Text
  pub studio_image_url : Option Text
  pub release_date : Option Text
  pub duration : Option ℕ
  pub whisparr_movie_id : Field (Option ℕ)
  pub whisparr_has_file : Field (Option Bool)

-- `input.whisparrMovieId !== undefined ? now : undefined`
abbrev synced_at : ℕ → Field (Option ℕ) → Field (Option ℕ)
synced_at now absent = undefined
synced_at now undefined = undefined
synced_at now (value _) = value (some now)

-- A property that is read from the input is there in the patch, undefined where it is not.
abbrev passed : {A : Type 0} → Field A → Field A
passed absent = undefined
passed undefined = undefined
passed (value v) = value v

abbrev pub seed_patch : ℕ → SeedInput → Text → SceneIndexPatch
seed_patch now input id = record (empty_patch id) {
  request_status = value (some input.request_status);
  request_updated_at = value (some input.request_updated_at);
  title = value input.title;
  description = value input.description;
  image_url = value input.image_url;
  studio_id = value input.studio_id;
  studio_name = value input.studio_name;
  studio_image_url = value input.studio_image_url;
  release_date = value input.release_date;
  duration = value input.duration;
  metadata_hydration_state = value hydrated;
  metadata_last_synced_at = value (some now);
  metadata_retry_after_at = value none;
  whisparr_movie_id = passed input.whisparr_movie_id;
  whisparr_has_file = passed input.whisparr_has_file;
  whisparr_last_synced_at = synced_at now input.whisparr_movie_id;
  last_synced_at = value (some now);
}

unfoldable pub seed_trimmed :
    (db : IndexDatabase)
    → ℕ
    → (ℕ → ℕ → Option Thrown)
    → SeedInput
    → Text
    → Store db
    → Store db × Option Thrown
seed_trimmed db now outcomes input [] store = (store, none)
seed_trimmed db now outcomes input (c ∷ id) store =
    apply_scene_index_patches db now outcomes (seed_patch now input (c ∷ id) ∷ []) none store

unfoldable pub seed_requested_scene :
    (db : IndexDatabase)
    → ℕ
    → (ℕ → ℕ → Option Thrown)
    → SeedInput
    → Store db
    → Store db × Option Thrown
seed_requested_scene db now outcomes input store =
    seed_trimmed db now outcomes input (trim input.stash_id) store

-- What the row of a seeded scene says.
pub record Seeded (input : SeedInput) (row : Option SceneIndexRow) : Type 0 where
  pub there : is_some row ≡ true
  pub request_status : Option.map (λ r. r.request_status) row ≡ some (some input.request_status)
  pub title : Option.map (λ r. r.title) row ≡ some input.title
  pub hydration : Option.map (λ r. r.metadata_hydration_state) row ≡ some hydrated

-- The merged patch of the one scene.
merged_seed :
    (now : ℕ) (input : SeedInput) (c : ℕ) (id : Text)
    → trim (c ∷ id) ≡ c ∷ id
    → patch_for (c ∷ id) (merge_patches_by_stash_id (seed_patch now input (c ∷ id) ∷ []))
      ≡ some (overlay (c ∷ id) (empty_patch (c ∷ id)) (seed_patch now input (c ∷ id)))
merged_seed now input c id e =
    merge_patches_by_stash_id-patch_for c id (seed_patch now input (c ∷ id) ∷ [])
    ∙ rw e (rw (text_eq_refl (c ∷ id)) refl)

seed_row-Seeded :
    (now : ℕ) (input : SeedInput) (c : ℕ) (id : Text) (old : Option SceneIndexRow)
    → Seeded input (
        some (
          build_scene_index_upsert_data old
            (overlay (c ∷ id) (empty_patch (c ∷ id)) (seed_patch now input (c ∷ id)))
            none))
unfolding build_scene_index_upsert_data patched overlay spread pick_value
seed_row-Seeded now input c id old = record {
  there = refl;
  request_status = refl;
  title = refl;
  hydration = refl;
}

seed_trimmed-Seeded :
    (db : IndexDatabase) (now : ℕ) (outcomes : ℕ → ℕ → Option Thrown) (input : SeedInput) (c : ℕ)
    (id : Text) (store : Store db)
    → trim (c ∷ id) ≡ c ∷ id
    → NotStale db store
    → (seed_trimmed db now outcomes input (c ∷ id) store).1 ≡ none
    → Seeded input (the_row db (seed_trimmed db now outcomes input (c ∷ id) store).0 (c ∷ id))
unfolding seed_trimmed
seed_trimmed-Seeded db now outcomes input c id store e stale done =
    elim (apply_scene_index_patches-RowEnd db now outcomes (seed_patch now input (c ∷ id) ∷ []) none
      store (c ∷ id) stale) [
        | inr (_, error) ↦ cc (done, error)
        | inl h ↦
            subst (Seeded input)
              (sym (
                h
                ∙ ap (λ o. row_by db none (c ∷ id) o (the_row db store (c ∷ id)))
                    (merged_seed now input c id e)))
              (seed_row-Seeded now input c id (the_row db store (c ∷ id)))
      ]

-- Once a scene is seeded without an error its row is there, hydrated, with the status of the
-- request and the title, if the summary counts rightly or is not there and the id is not blank.
pub seed_requested_scene-Seeded :
    (db : IndexDatabase) (now : ℕ) (outcomes : ℕ → ℕ → Option Thrown) (input : SeedInput)
    (store : Store db)
    → NotStale db store
    → trim input.stash_id ≢ []
    → (seed_requested_scene db now outcomes input store).1 ≡ none
    → Seeded input
        (the_row db (seed_requested_scene db now outcomes input store).0 (trim input.stash_id))
unfolding seed_requested_scene
seed_requested_scene-Seeded db now outcomes input store stale nonblank done =
    go (trim input.stash_id) (trim_idem input.stash_id) nonblank done
  where
    go :
        (id : Text)
        → trim id ≡ id
        → id ≢ []
        → (seed_trimmed db now outcomes input id store).1 ≡ none
        → Seeded input (the_row db (seed_trimmed db now outcomes input id store).0 id)
    go [] e n d = absurd (n refl)
    go (c ∷ id) e n d = seed_trimmed-Seeded db now outcomes input c id store e stale d

pub seed_requested_scene-NotStale :
    (db : IndexDatabase) (now : ℕ) (outcomes : ℕ → ℕ → Option Thrown) (input : SeedInput)
    (store : Store db)
    → NotStale db store
    → NotStale db (seed_requested_scene db now outcomes input store).0
unfolding seed_requested_scene seed_trimmed
seed_requested_scene-NotStale db now outcomes input store stale = go (trim input.stash_id)
  where
    go : (id : Text) → NotStale db (seed_trimmed db now outcomes input id store).0
    go [] = stale
    go (c ∷ id) =
        apply_scene_index_patches-NotStale db now outcomes (seed_patch now input (c ∷ id) ∷ []) none
          store stale
