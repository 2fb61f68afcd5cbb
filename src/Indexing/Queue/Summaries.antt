-- ===== src/Indexing/Queue/Summaries.antt =====
-- The item kept of a queue beside the whole queue: `summarizeQueueItems` of
-- apps/sp-api/src/indexing/indexing.service.ts against the resolver of
-- apps/sp-api/src/scene-status/scene-status.resolver.ts.
use stasharr_portal.Prelude.{
  ℕ, ◌≤◌, min, ◌≡◌, refl, ap, ◌∙◌, Option, none, some, List, [], ◌∷◌, arith, ◌==◌, if◌then◌else◌,
  Bool, true, not, ◌&&◌, ◌||◌, false, sym, all, ==_iff,
}
use stasharr_portal.SceneStatus.{QueueItem}
use stasharr_portal.Prelude.Text.{Text, text, text_eq, eq_text, text_eq_iff}
use stasharr_portal.SceneStatus.{
  SceneState, Signal, skipped, broken, importing, queued, active, read_item, read_status,
  is_import_state, normalize, has, failed_queue_statuses, resolve_queue_lifecycle_state,
}
use stasharr_portal.SceneStatus.Priority.{
  is_broken, is_importing, is_active, is_queued, seen, resolve_queue_lifecycle_state-worst,
}
use stasharr_portal.Indexing.SceneIndex.{blank_row, SceneIndexRow, synthesize_queue_items}
use stasharr_portal.Indexing.Queue.{
  QueueSummary, normalized, rank, rank_queue_item, insert_by_rank, sort_by_rank,
  summarize_queue_items, summary_of,
}

-- The rank that a signal of the resolver stands for.
abbrev signal_rank : Signal → ℕ
signal_rank broken = 0
signal_rank importing = 1
signal_rank active = 2
signal_rank queued = 3
signal_rank skipped = 4

abbrev state_of_rank : ℕ → Option SceneState
state_of_rank n =
    if n == 0
    then some SceneState.failed
    else if n == 1
    then some SceneState.import_pending
    else if n == 2
    then some SceneState.downloading
    else if n == 3
    then some SceneState.requested
    else none

abbrev least : (QueueItem → ℕ) → List QueueItem → ℕ
least f [] = 4
least f (item ∷ items) = min (f item) (least f items)

abbrev worst_rank : ℕ → List QueueItem → ℕ
worst_rank m items =
    if seen is_broken m items
    then 0
    else if seen is_importing m items
    then 1
    else if seen is_active m items
    then 2
    else if seen is_queued m items
    then 3
    else 4

worst_rank-least :
    (m : ℕ) (items : List QueueItem)
    → worst_rank m items ≡ least (λ item. signal_rank (read_item m item)) items
worst_rank-least m [] = refl
worst_rank-least m (item ∷ items) = ground (arith, worst_rank-least m items)

-- The lifecycle of a queue, by the least rank of its items.
resolve-least :
    (m : ℕ) (items : List QueueItem)
    → resolve_queue_lifecycle_state m items
      ≡ state_of_rank (least (λ item. signal_rank (read_item m item)) items)
resolve-least m items =
    resolve_queue_lifecycle_state-worst m items
    ∙ (ground arith ∙ ap state_of_rank (worst_rank-least m items))

abbrev head_rank : List QueueItem → ℕ
head_rank [] = 4
head_rank (item ∷ _) = rank_queue_item item

rank_le : (item : QueueItem) → rank_queue_item item ≤ 4
unfolding rank_queue_item rank
rank_le item = ground arith

insert_by_rank-head :
    (item : QueueItem) (ranked : List QueueItem)
    → head_rank (insert_by_rank item ranked) ≡ min (rank_queue_item item) (head_rank ranked)
unfolding insert_by_rank
insert_by_rank-head item [] = omega (arith, rank_le item)
insert_by_rank-head item (other ∷ ranked) = ground arith

-- The selected item has the least rank.
sort_by_rank-head :
    (items : List QueueItem) → head_rank (sort_by_rank items) ≡ least rank_queue_item items
unfolding sort_by_rank
sort_by_rank-head [] = refl
sort_by_rank-head (item ∷ items) =
    insert_by_rank-head item (sort_by_rank items)
    ∙ ap (λ n. min (rank_queue_item item) n) (sort_by_rank-head items)

abbrev importing_state : Text → Bool
importing_state state = text_eq state (text "importpending") || text_eq state (text "importing")

abbrev leading_status : Text → Bool
leading_status status =
    has failed_queue_statuses status
    || text_eq status (text "completed")
    || text_eq status (text "downloading")

-- The item is of the movie, and the state of its download says that it is imported only where its
-- status says that it failed, is completed or downloads.
abbrev pub says_alike : ℕ → QueueItem → Bool
says_alike m item =
    item.movie_id == m
    && (not (importing_state (normalized item.tracked_download_state))
        || leading_status (normalized item.status))

queued_not_downloading :
    (status : Text)
    → text_eq status (text "queued") ≡ true
    → text_eq status (text "downloading") ≡ false
unfolding text_eq
queued_not_downloading status h =
    ap (λ s. text_eq s (text "downloading")) ((text_eq_iff status (text "queued")).0 h)

rank_of_status :
    (status : Text) (state : Option Text)
    → (not (importing_state (normalized state)) || leading_status status) ≡ true
    → rank status (normalized state) ≡ signal_rank (read_status status state)
unfolding rank read_status is_import_state normalized text_eq
rank_of_status status none h = ground (arith, h, queued_not_downloading status)
rank_of_status status (some s) h = ground (arith, h, queued_not_downloading status)

abbrev an_item : ℕ → Option Text → Option Text → Option Text → Option Text → QueueItem
an_item movie_id status state tracked error = record {
  movie_id = movie_id;
  status = status;
  tracked_download_state = state;
  tracked_download_status = tracked;
  error_message = error;
}

rank_of_parts :
    (m movie_id : ℕ) (status state tracked error : Option Text)
    → says_alike m (an_item movie_id status state tracked error) ≡ true
    → rank_queue_item (an_item movie_id status state tracked error)
      ≡ signal_rank (read_item m (an_item movie_id status state tracked error))
unfolding rank_queue_item read_item normalized text_eq
rank_of_parts m movie_id none none tracked error h = refl
rank_of_parts m movie_id none (some state) tracked error h = ground (arith, h)
rank_of_parts m movie_id (some status) state tracked error h =
    ground (arith, h, rank_of_status (normalize status) state)

-- An item whose parts say alike has the rank of its signal.
rank_of_item :
    (m : ℕ) (item : QueueItem)
    → says_alike m item ≡ true
    → rank_queue_item item ≡ signal_rank (read_item m item)
rank_of_item m item h =
    rank_of_parts m item.movie_id item.status item.tracked_download_state
      item.tracked_download_status item.error_message h

both_true : (a b : Bool) → (a && b) ≡ true → (a ≡ true) × (b ≡ true)
both_true true b h = (refl, h)
both_true false b h = cc h

least_alike :
    (m : ℕ) (items : List QueueItem)
    → all (says_alike m) items ≡ true
    → least rank_queue_item items ≡ least (λ item. signal_rank (read_item m item)) items
least_alike m [] h = refl
least_alike m (item ∷ items) h =
    let (here, rest) = both_true (says_alike m item) (all (says_alike m) items) h in
    rw (rank_of_item m item here, least_alike m items rest) refl

-- The row that the index keeps of a movie and the summary of its queue.
abbrev pub queue_row : ℕ → QueueSummary → SceneIndexRow
queue_row m summary = record blank_row {
  whisparr_movie_id = some m;
  whisparr_queue_status = summary.status;
  whisparr_queue_state = summary.state;
  whisparr_error_message = summary.error_message;
}

signal_rank_le : (x : Signal) → min (signal_rank x) 4 ≡ signal_rank x
signal_rank_le x = ground arith

-- A status of no text at all says nothing.
read_nothing : (state : Option Text) → signal_rank (read_status (normalize []) state) ≡ 4
unfolding read_status normalize text_eq
read_nothing state = refl

synthesized_parts :
    (m movie_id : ℕ) (status state tracked error : Option Text)
    → (movie_id == m) ≡ true
    → least
        (λ item. signal_rank (read_item m item))
        (synthesize_queue_items
          (queue_row m (record { status = status; state = state; error_message = error })))
      ≡ signal_rank (read_item m (an_item movie_id status state tracked error))
unfolding synthesize_queue_items read_item
synthesized_parts m movie_id none state tracked error h = refl
synthesized_parts m movie_id (some []) state tracked error h =
    rw (h, read_item) (sym (read_nothing state))
synthesized_parts m movie_id (some (c ∷ s)) state tracked error h =
    signal_rank_le (read_item m (an_item m (some (c ∷ s)) state none error))
    ∙ ap (λ k. signal_rank (read_item m (an_item k (some (c ∷ s)) state none error)))
        (sym ((==_iff movie_id m).0 h))

-- The item that is read back from a row has the signal of the selected one.
synthesized-least :
    (m : ℕ) (ranked : List QueueItem)
    → all (says_alike m) ranked ≡ true
    → least
        (λ item. signal_rank (read_item m item))
        (synthesize_queue_items (queue_row m (summary_of ranked)))
      ≡ head_rank ranked
unfolding synthesize_queue_items
synthesized-least m [] h = refl
synthesized-least m (item ∷ ranked) h =
    let (here, rest) = both_true (says_alike m item) (all (says_alike m) ranked) h in
    synthesized_parts m item.movie_id item.status item.tracked_download_state
      item.tracked_download_status item.error_message
      (both_true (item.movie_id == m)
        (not (importing_state (normalized item.tracked_download_state))
          || leading_status (normalized item.status))
        here).0
    ∙ sym (rank_of_item m item here)

insert_by_rank-all :
    (p : QueueItem → Bool) (item : QueueItem) (ranked : List QueueItem)
    → p item ≡ true
    → all p ranked ≡ true
    → all p (insert_by_rank item ranked) ≡ true
unfolding insert_by_rank
insert_by_rank-all p item [] e h = ground (arith, e, h)
insert_by_rank-all p item (other ∷ ranked) e h =
    ground (arith, e, h, insert_by_rank-all p item ranked)

sort_by_rank-all :
    (p : QueueItem → Bool) (items : List QueueItem)
    → all p items ≡ true
    → all p (sort_by_rank items) ≡ true
unfolding sort_by_rank
sort_by_rank-all p [] h = refl
sort_by_rank-all p (item ∷ items) h =
    let (here, rest) = both_true (p item) (all p items) h in
    insert_by_rank-all p item (sort_by_rank items) here (sort_by_rank-all p items rest)

-- The item that the index keeps of a movie's queue says of its lifecycle what the whole queue says,
-- where each item is of the movie and has an import state only with a status that failed, is
-- completed or downloads.
pub summarize_queue_items-resolve :
    (m : ℕ) (items : List QueueItem)
    → all (says_alike m) items ≡ true
    → resolve_queue_lifecycle_state m
        (synthesize_queue_items (queue_row m (summarize_queue_items items)))
      ≡ resolve_queue_lifecycle_state m items
unfolding summarize_queue_items
summarize_queue_items-resolve m items h =
    resolve-least m (synthesize_queue_items (queue_row m (summary_of (sort_by_rank items))))
    ∙ (ap state_of_rank (
          synthesized-least m (sort_by_rank items) (sort_by_rank-all (says_alike m) items h)
          ∙ (sort_by_rank-head items ∙ least_alike m items h))
        ∙ sym (resolve-least m items))
