-- ===== src/Indexing/Queue/Groups.antt =====
-- The groups are the items of each movie in their order, `groupQueueItemsByMovieId` of
-- apps/sp-api/src/indexing/indexing.service.ts.
use stasharr_portal.Prelude.Text.{eq_text}
use stasharr_portal.Prelude.{
  nat_eq, ℕ, ◌≡◌, refl, ap, ◌∙◌, inl, inr, Option, none, some, List, [], ◌∷◌, ◌++◌, ◌==◌,
  Bool-cases, keep, append_one, ==_iff,
}
use stasharr_portal.Prelude.Dict.{Dict, get, put, get-put}
use stasharr_portal.SceneStatus.{QueueItem}
use stasharr_portal.Indexing.Queue.{pushed, group_into, group_queue_items_by_movie_id}

-- The items of a movie.
abbrev pub items_of : ℕ → List QueueItem → List QueueItem
items_of movie_id items = keep (λ item. item.movie_id == movie_id) items

-- What a group becomes with more items.
abbrev pub grown : Option (List QueueItem) → List QueueItem → Option (List QueueItem)
grown old [] = old
grown none (item ∷ items) = some (item ∷ items)
grown (some old) (item ∷ items) = some (old ++ (item ∷ items))

grown_one :
    (old : Option (List QueueItem)) (item : QueueItem) (items : List QueueItem)
    → grown (some (pushed item old)) items ≡ grown old (item ∷ items)
grown_one none item [] = refl
grown_one none item (x ∷ items) = refl
grown_one (some old) item [] = refl
grown_one (some old) item (x ∷ items) = ap some (append_one old item (x ∷ items))

get-group_into :
    (grouped : Dict ℕ (List QueueItem)) (items : List QueueItem) (m : ℕ)
    → get m (group_into grouped items) ≡ grown (get m grouped) (items_of m items)
unfolding group_into
get-group_into grouped [] m = refl
get-group_into grouped (item ∷ items) m =
    get-group_into (put item.movie_id (pushed item (get item.movie_id grouped)) grouped) items m
    ∙ (ap (λ o. grown o (items_of m items))
          (get-put item.movie_id m (pushed item (get item.movie_id grouped)) grouped)
        ∙ elim (Bool-cases (item.movie_id == m)) [
          | inl e ↦ rw e (
              grown_one (get item.movie_id grouped) item (items_of m items)
              ∙ ap (λ i. grown (get i grouped) (item ∷ items_of m items))
                  ((==_iff item.movie_id m).0 e))
          | inr e ↦ rw e refl
        ])

-- The group of a movie is the items of the movie in the order of the queue, and there is none
-- where the queue has no item of the movie.
pub get-group_queue_items_by_movie_id :
    (items : List QueueItem) (m : ℕ)
    → get m (group_queue_items_by_movie_id items) ≡ grown none (items_of m items)
unfolding group_queue_items_by_movie_id get
get-group_queue_items_by_movie_id items m = get-group_into [] items m
