-- ===== src/Indexing/Queue/Tests.antt =====
-- Queues by movie and their summaries on concrete items, and the theorems at such inputs.
use stasharr_portal.Prelude.{nat_eq, ℕ, ◌≡◌, refl, true, Option, none, some, List, [], ◌∷◌, all}
use stasharr_portal.Prelude.Text.{Text, text, text_eq, eq_text}
use stasharr_portal.Prelude.Dict.{get}
use stasharr_portal.SceneStatus.{SceneState, QueueItem, read_item, resolve_queue_lifecycle_state}
use stasharr_portal.Indexing.SceneIndex.{synthesize_queue_items}
use stasharr_portal.Indexing.Queue.{summarize_queue_items, group_queue_items_by_movie_id}
use stasharr_portal.Indexing.Queue.Summaries.{says_alike, queue_row, summarize_queue_items-resolve}

abbrev item : ℕ → Text → Option Text → QueueItem
item id status state = record {
  movie_id = id;
  status = some status;
  tracked_download_state = state;
  tracked_download_status = none;
  error_message = none;
}

abbrev queue : List QueueItem
queue = item 7 (text "queued") none ∷ item 7 (text " Downloading ") (some (text "downloading")) ∷ []

-- An import state beside a status that waits.
abbrev odd_queue : List QueueItem
odd_queue =
    item 7 (text "queued") (some (text "importPending")) ∷ item 7 (text "downloading") none ∷ []

resolver : Unit {0}
unfolding resolve_queue_lifecycle_state read_item text_eq get synthesize_queue_items
    summarize_queue_items group_queue_items_by_movie_id
resolver = tt

summary_tests :
    (resolve_queue_lifecycle_state 7 queue ≡ some SceneState.downloading)
    × (resolve_queue_lifecycle_state 7
          (synthesize_queue_items (queue_row 7 (summarize_queue_items queue)))
        ≡ some SceneState.downloading)
    × (resolve_queue_lifecycle_state 7 odd_queue ≡ some SceneState.downloading)
    × (resolve_queue_lifecycle_state 7
          (synthesize_queue_items (queue_row 7 (summarize_queue_items odd_queue)))
        ≡ some SceneState.requested)
unfolding resolver
summary_tests = (refl, refl, refl, refl)

queue-says_alike : all (says_alike 7) queue ≡ true
unfolding resolver
queue-says_alike = refl

summarize_queue_items-resolve_example :
    resolve_queue_lifecycle_state 7
      (synthesize_queue_items (queue_row 7 (summarize_queue_items queue)))
    ≡ resolve_queue_lifecycle_state 7 queue
summarize_queue_items-resolve_example = summarize_queue_items-resolve 7 queue queue-says_alike
