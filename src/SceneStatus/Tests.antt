-- ===== src/SceneStatus/Tests.antt =====
-- Runs of the resolver on concrete queues, and its theorems at such inputs.
use stasharr_portal.Prelude.Text.{Text, text, text_eq, eq_text}
use stasharr_portal.Prelude.{ℕ, ◌≡◌, refl, ◌↔◌, ◌⊎◌, true, false, Option, none, some, List, [], ◌∷◌}
use mathlib.Core.List.Perm
use stasharr_portal.SceneStatus.{
  SceneState, import_pending, RequestStatus, WhisparrMovieLookup, QueueItem, read_item,
  resolve_queue_lifecycle_state, resolve_scene_status,
}
use stasharr_portal.SceneStatus.Priority.{
  worst, resolve_queue_lifecycle_state-worst, resolve_queue_lifecycle_state-perm,
}
use stasharr_portal.SceneStatus.Verdict.{breaks, failed_iff}

abbrev item : ℕ → Text → Option Text → QueueItem
item id status state = record {
  movie_id = id;
  status = some status;
  tracked_download_state = state;
  tracked_download_status = none;
  error_message = none;
}

abbrev queue : List QueueItem
queue =
    item 7 (text " Downloading ") (some (text "importPending"))
    ∷ item 7 (text "queued") none
    ∷ item 8 (text "failed") none
    ∷ []

abbrev movie : WhisparrMovieLookup
movie = record { movie_id = 7; stash_id = text "s"; has_file = false }

resolver : Unit {0}
unfolding resolve_scene_status resolve_queue_lifecycle_state read_item text_eq
resolver = tt

resolve_tests :
    (resolve_scene_status (some movie) queue false none ≡ import_pending)
    × (resolve_scene_status (some movie) queue true none ≡ SceneState.available)
    × (resolve_scene_status (some (record movie { movie_id = 8 })) queue false none
        ≡ SceneState.failed)
    × (resolve_scene_status (some (record movie { movie_id = 9 })) queue false none
        ≡ SceneState.requested)
    × (resolve_scene_status none queue false (some RequestStatus.processing) ≡ SceneState.requested)
unfolding resolver
resolve_tests = (refl, refl, refl, refl, refl)

resolve_queue_lifecycle_state-worst_example : resolve_queue_lifecycle_state 7 queue ≡ worst 7 queue
resolve_queue_lifecycle_state-worst_example = resolve_queue_lifecycle_state-worst 7 queue

resolve_queue_lifecycle_state-perm_example :
    resolve_queue_lifecycle_state 7 (item 7 (text "queued") none ∷ item 7 (text "failed") none ∷ [])
    ≡ resolve_queue_lifecycle_state 7
        (item 7 (text "failed") none ∷ item 7 (text "queued") none ∷ [])
resolve_queue_lifecycle_state-perm_example =
    resolve_queue_lifecycle_state-perm 7
      (Perm.swap (item 7 (text "failed") none) (item 7 (text "queued") none) [])

failed_iff_example : (resolve_scene_status (some movie) queue false none ≡ SceneState.failed) ↔ (
    (false ≡ false)
    × ((breaks (some movie) queue ≡ true)
        ⊎ (some movie ≡ none) × (none ≡ some RequestStatus.failed)))
failed_iff_example = failed_iff (some movie) queue false none
