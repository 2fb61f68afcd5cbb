-- ===== src/SceneStatus.antt =====
-- How a scene's status is resolved from the Whisparr movie, its queue items, the Stash
-- availability and the last request, apps/sp-api/src/scene-status/scene-status.resolver.ts.
use stasharr_portal.Prelude.Text.{Text, text, text_eq, eq_text, trim, to_lower}
use stasharr_portal.Prelude.{
  ℕ, Bool, true, false, not, Option, none, some, List, [], ◌∷◌, ◌==◌, if◌then◌else◌, any,
}
pub mod Priority
pub mod Verdict
mod Tests

-- `SceneStatusDto['state']`.
pub data SceneState : Type 0 where
  not_requested requested downloading import_pending available failed : SceneState

-- Prisma's `RequestStatus`.
pub data RequestStatus : Type 0 where
  requested processing available failed : RequestStatus

pub record WhisparrMovieLookup : Type 0 where
  pub movie_id : ℕ
  pub stash_id : Text
  pub has_file : Bool

pub record QueueItem : Type 0 where
  pub movie_id : ℕ
  pub status : Option Text
  pub tracked_download_state : Option Text
  pub tracked_download_status : Option Text
  pub error_message : Option Text

unfoldable pub normalize : Text → Text
unfolding trim to_lower
normalize s = to_lower (trim s)

-- `Set.prototype.has` on a set of literals.
abbrev pub has : List Text → Text → Bool
has words s = any (text_eq s) words

abbrev pub failed_queue_statuses : List Text
failed_queue_statuses = text "failed" ∷ text "warning" ∷ text "paused" ∷ []

abbrev pub import_pending_states : List Text
import_pending_states = text "importpending" ∷ text "importing" ∷ []

-- What one pass of the loop over the queue makes of an item.
pub data Signal : Type 0 where
  skipped broken importing queued active : Signal

-- A missing or empty download state is falsy, and is in no set.
unfoldable pub is_import_state : Option Text → Bool
is_import_state none = false
is_import_state (some s) = has import_pending_states (normalize s)

unfoldable pub read_status : Text → Option Text → Signal
unfolding is_import_state text_eq
read_status status download_state =
    if has failed_queue_statuses status
    then broken
    else if text_eq status (text "completed")
    then importing
    else if text_eq status (text "queued")
    then queued
    else if not (text_eq status (text "downloading"))
    then skipped
    else if is_import_state download_state
    then importing
    else active

unfoldable pub read_item : ℕ → QueueItem → Signal
unfolding read_status normalize
read_item movie_id item = elim item.status [
  | none ↦ skipped
  | some status ↦
      if item.movie_id == movie_id
      then read_status (normalize status) item.tracked_download_state
      else skipped
]

-- The three flags of `resolveQueueLifecycleState`.
pub record Flags : Type 0 where
  pub has_requested : Bool
  pub has_downloading : Bool
  pub has_import_pending : Bool

after_loop : Flags → Option SceneState
after_loop f =
    if f.has_import_pending
    then some import_pending
    else if f.has_downloading
    then some downloading
    else if f.has_requested
    then some SceneState.requested
    else none

scan : ℕ → Flags → List QueueItem → Option SceneState
unfolding after_loop
scan movie_id f [] = after_loop f
scan movie_id f (item ∷ items) = elim (read_item movie_id item) [
  | skipped ↦ scan movie_id f items
  | broken ↦ some SceneState.failed
  | importing ↦ scan movie_id (record f { has_import_pending = true }) items
  | queued ↦ scan movie_id (record f { has_requested = true }) items
  | active ↦ scan movie_id (record f { has_downloading = true }) items
]

abbrev pub no_flags : Flags
no_flags = record { has_requested = false; has_downloading = false; has_import_pending = false }

unfoldable pub resolve_queue_lifecycle_state : ℕ → List QueueItem → Option SceneState
unfolding scan read_item
resolve_queue_lifecycle_state movie_id items = scan movie_id no_flags items

-- The movie's branch, once the queue has been read.
of_movie : Bool → Option SceneState → SceneState
of_movie has_file (some state) = state
of_movie has_file none = if has_file then import_pending else SceneState.requested

-- The fallback on the last request, where Whisparr has no movie.
of_request : Option RequestStatus → SceneState
of_request none = not_requested
of_request (some RequestStatus.failed) = SceneState.failed
of_request (some RequestStatus.requested) = SceneState.requested
of_request (some processing) = SceneState.requested
of_request (some RequestStatus.available) = SceneState.requested

unfoldable pub resolve_scene_status :
    Option WhisparrMovieLookup → List QueueItem → Bool → Option RequestStatus → SceneState
unfolding of_movie of_request
resolve_scene_status movie queue_items stash_available fallback =
    if stash_available then SceneState.available else elim movie [
      | none ↦ of_request fallback
      | some m ↦ of_movie m.has_file (resolve_queue_lifecycle_state m.movie_id queue_items)
    ]
