-- ===== src/SceneStatus/Verdict.antt =====
-- When each verdict of `resolveSceneStatus` is reached.
use stasharr_portal.Prelude.Text.{eq_text}
use stasharr_portal.Prelude.{
  ◌≡◌, ◌↔◌, ◌⊎◌, Bool, true, false, Option, none, some, List, inl, inr, arith, Option-cases,
}
use stasharr_portal.SceneStatus.{
  SceneState, not_requested, RequestStatus, WhisparrMovieLookup, QueueItem, resolve_scene_status,
}
use stasharr_portal.SceneStatus.Priority.{is_broken, seen, resolve_queue_lifecycle_state-worst}

-- A queue item of the movie gives the signal `broken`.
abbrev pub breaks : Option WhisparrMovieLookup → List QueueItem → Bool
breaks none queue = false
breaks (some m) queue = seen is_broken m.movie_id queue

module _ (movie : Option WhisparrMovieLookup) (queue : List QueueItem) (stash_available : Bool)
    (fallback : Option RequestStatus) where
  -- A scene is shown as available exactly when Stash has it, and as not requested exactly when Stash
  -- does not, Whisparr has no movie and no request is on record.
  pub available-not_requested_iff :
      ((resolve_scene_status movie queue stash_available fallback ≡ SceneState.available)
        ↔ (stash_available ≡ true))
      × ((resolve_scene_status movie queue stash_available fallback ≡ not_requested)
          ↔ ((stash_available ≡ false) × (movie ≡ none) × (fallback ≡ none)))
  unfolding resolve_scene_status
  available-not_requested_iff = elim (Option-cases movie) [
    | inl none_found ↦ rw none_found (ground arith)
    | inr (m, found) ↦
        rw (found, resolve_queue_lifecycle_state-worst m.movie_id queue) (ground arith)
  ]

  -- A scene is shown as failed exactly when Stash does not have it and either a queue item of its
  -- movie is broken, or Whisparr has no movie and the last request failed.
  pub failed_iff :
      (resolve_scene_status movie queue stash_available fallback ≡ SceneState.failed) ↔ (
        (stash_available ≡ false)
        × ((breaks movie queue ≡ true) ⊎ (movie ≡ none) × (fallback ≡ some RequestStatus.failed)))
  unfolding resolve_scene_status
  failed_iff = elim (Option-cases movie) [
    | inl none_found ↦ rw none_found (ground arith)
    | inr (m, found) ↦
        rw (found, resolve_queue_lifecycle_state-worst m.movie_id queue) (ground arith)
  ]
