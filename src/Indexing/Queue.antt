-- ===== src/Indexing/Queue.antt =====
-- Whisparr's queue by movie, and the one item that the index keeps of a movie's queue:
-- `groupQueueItemsByMovieId`, `summarizeQueueItems` and `rankQueueItem` of
-- apps/sp-api/src/indexing/indexing.service.ts.
use stasharr_portal.Prelude.{
  nat_eq, ℕ, ◌||◌, Option, none, some, List, [], ◌∷◌, ◌++◌, leb, if◌then◌else◌,
}
use stasharr_portal.Prelude.Text.{Text, text, text_eq, eq_text}
use stasharr_portal.Prelude.Dict.{Dict, get, put}
use stasharr_portal.SceneStatus.{
  QueueItem, normalize, has, failed_queue_statuses, import_pending_states,
}
pub mod Groups
pub mod Summaries
mod Tests

-- `item.status?.trim().toLowerCase() ?? ''`
unfoldable pub normalized : Option Text → Text
unfolding normalize
normalized none = []
normalized (some s) = normalize s

unfoldable pub rank : Text → Text → ℕ
unfolding text_eq
rank status state =
    if text_eq status (text "failed")
      || text_eq status (text "warning")
      || text_eq status (text "paused")
    then 0
    else if text_eq status (text "completed")
        || text_eq state (text "importpending")
        || text_eq state (text "importing")
    then 1
    else if text_eq status (text "downloading")
    then 2
    else if text_eq status (text "queued")
    then 3
    else 4

unfoldable pub rank_queue_item : QueueItem → ℕ
unfolding rank normalized
rank_queue_item item = rank (normalized item.status) (normalized item.tracked_download_state)

-- `sort` by rank, which is stable.
unfoldable pub insert_by_rank : QueueItem → List QueueItem → List QueueItem
unfolding rank_queue_item
insert_by_rank item [] = item ∷ []
insert_by_rank item (other ∷ ranked) =
    let rest : List QueueItem = insert_by_rank item ranked in
    if leb (rank_queue_item item) (rank_queue_item other)
    then item ∷ other ∷ ranked
    else other ∷ rest

unfoldable pub sort_by_rank : List QueueItem → List QueueItem
unfolding insert_by_rank
sort_by_rank [] = []
sort_by_rank (item ∷ items) = insert_by_rank item (sort_by_rank items)

pub record QueueSummary : Type 0 where
  pub status : Option Text
  pub state : Option Text
  pub error_message : Option Text

abbrev summary_of : List QueueItem → QueueSummary
summary_of [] = record { status = none; state = none; error_message = none }
summary_of (selected ∷ _) = record {
  status = selected.status;
  state = selected.tracked_download_state;
  error_message = selected.error_message;
}

unfoldable pub summarize_queue_items : List QueueItem → QueueSummary
unfolding sort_by_rank
summarize_queue_items items = summary_of (sort_by_rank items)

abbrev pushed : QueueItem → Option (List QueueItem) → List QueueItem
pushed item none = item ∷ []
pushed item (some items) = items ++ (item ∷ [])

unfoldable pub group_into : Dict ℕ (List QueueItem) → List QueueItem → Dict ℕ (List QueueItem)
group_into grouped [] = grouped
group_into grouped (item ∷ items) =
    group_into (put item.movie_id (pushed item (get item.movie_id grouped)) grouped) items

unfoldable pub group_queue_items_by_movie_id : List QueueItem → Dict ℕ (List QueueItem)
unfolding group_into
group_queue_items_by_movie_id items = group_into [] items
