-- ===== src/Indexing/SceneIndex/Deltas.antt =====
-- What the delta of a batch of rows says of each counter: the difference of two sums,
-- apps/sp-api/src/indexing/indexing.service.ts.
use stasharr_portal.Prelude.{
  ℕ, ◌+◌, ◌≡◌, refl, sym, ◌∙◌, Bool, Option, some, List, [], ◌∷◌, ap, true, none,
}
use stasharr_portal.Prelude.Text.{Text, eq_text}
use stasharr_portal.Prelude.Dict.{Dict, get}
use stasharr_portal.Prelude.Int.{zero_add, ℤ, pos, diff, ◌+ℤ◌, diff_add, +ℤ_assoc, diff_add_zero}
use stasharr_portal.Database.{hits}
use stasharr_portal.SceneStatus.{SceneState}
use stasharr_portal.Indexing.SceneIndex.{SceneIndexRow, pending, failed_retryable}
use stasharr_portal.Indexing.SceneIndex.Summary.{
  SceneIndexSummary, add_row, add_rows, count_delta, in_acquisition, has_lifecycle,
  has_metadata_state, one_if_new, zero_delta, build_scene_index_summary_delta,
  build_scene_index_summary_delta_update,
}

-- The rows of the batch that pass a test, and the rows that they replace.
abbrev pub sum_next : (SceneIndexRow → Bool) → List (Text × SceneIndexRow) → ℕ
sum_next p [] = 0
sum_next p ((id, next) ∷ rows) = hits p (some next) + sum_next p rows

abbrev pub sum_old :
    (Text → Option SceneIndexRow) → (SceneIndexRow → Bool) → List (Text × SceneIndexRow) → ℕ
sum_old old p [] = 0
sum_old old p ((id, next) ∷ rows) = hits p (old id) + sum_old old p rows

-- A counter that `addRow` moves by the difference for a test.
Counts : (SceneIndexSummary → ℤ) → (SceneIndexRow → Bool) → Type 0
Counts f p =
    (delta : SceneIndexSummary) (next : SceneIndexRow) (old : Option SceneIndexRow)
    → f (add_row delta next old) ≡ f delta +ℤ count_delta p next old

add_rows-counter :
    (f : SceneIndexSummary → ℤ) (p : SceneIndexRow → Bool) (existing : Dict Text SceneIndexRow)
    (delta : SceneIndexSummary) (rows : List (Text × SceneIndexRow))
    → Counts f p
    → f (add_rows existing delta rows)
      ≡ f delta +ℤ diff (sum_next p rows) (sum_old (λ id. get id existing) p rows)
unfolding Counts add_rows count_delta
add_rows-counter f p existing delta [] moves = sym (diff_add_zero (f delta))
add_rows-counter f p existing delta ((id, next) ∷ rows) moves =
    add_rows-counter f p existing (add_row delta next (get id existing)) rows moves
    ∙ rw
        (
          moves delta next (get id existing),
          +ℤ_assoc (f delta) (count_delta p next (get id existing))
              (diff (sum_next p rows) (sum_old (λ j. get j existing) p rows)),
        )
        (rw
          (diff_add (hits p (some next)) (hits p (get id existing)) (sum_next p rows)
            (sum_old (λ j. get j existing) p rows))
          refl)

-- A statement about each counter and the test of the rows that it counts.
pub record EachCounter (P : (SceneIndexSummary → ℤ) → (SceneIndexRow → Bool) → Type 0)
    : Type 0 where
  pub indexed_scenes : P (λ s. s.indexed_scenes) (λ _. true)
  pub acquisition_tracked_scenes : P (λ s. s.acquisition_tracked_scenes) in_acquisition
  pub requested_count : P (λ s. s.requested_count) (has_lifecycle SceneState.requested)
  pub downloading_count : P (λ s. s.downloading_count) (has_lifecycle SceneState.downloading)
  pub import_pending_count :
      P (λ s. s.import_pending_count) (has_lifecycle SceneState.import_pending)
  pub failed_count : P (λ s. s.failed_count) (has_lifecycle SceneState.failed)
  pub metadata_pending_count : P (λ s. s.metadata_pending_count) (has_metadata_state pending)
  pub metadata_retryable_count :
      P (λ s. s.metadata_retryable_count) (has_metadata_state failed_retryable)

pub each_map :
    {P Q : (SceneIndexSummary → ℤ) → (SceneIndexRow → Bool) → Type 0}
    → ((f : SceneIndexSummary → ℤ) (p : SceneIndexRow → Bool) → P f p → Q f p)
    → EachCounter P
    → EachCounter Q
each_map g e = record {
  indexed_scenes = g (λ s. s.indexed_scenes) (λ _. true) e.indexed_scenes;
  acquisition_tracked_scenes =
      g (λ s. s.acquisition_tracked_scenes) in_acquisition e.acquisition_tracked_scenes;
  requested_count =
      g (λ s. s.requested_count) (has_lifecycle SceneState.requested) e.requested_count;
  downloading_count =
      g (λ s. s.downloading_count) (has_lifecycle SceneState.downloading) e.downloading_count;
  import_pending_count =
      g (λ s. s.import_pending_count) (has_lifecycle SceneState.import_pending)
        e.import_pending_count;
  failed_count = g (λ s. s.failed_count) (has_lifecycle SceneState.failed) e.failed_count;
  metadata_pending_count =
      g (λ s. s.metadata_pending_count) (has_metadata_state pending) e.metadata_pending_count;
  metadata_retryable_count =
      g (λ s. s.metadata_retryable_count) (has_metadata_state failed_retryable)
        e.metadata_retryable_count;
}

pub each_both :
    {P Q : (SceneIndexSummary → ℤ) → (SceneIndexRow → Bool) → Type 0}
    → EachCounter P
    → EachCounter Q
    → EachCounter (λ f p. P f p × Q f p)
each_both a b = record {
  indexed_scenes = (a.indexed_scenes, b.indexed_scenes);
  acquisition_tracked_scenes = (a.acquisition_tracked_scenes, b.acquisition_tracked_scenes);
  requested_count = (a.requested_count, b.requested_count);
  downloading_count = (a.downloading_count, b.downloading_count);
  import_pending_count = (a.import_pending_count, b.import_pending_count);
  failed_count = (a.failed_count, b.failed_count);
  metadata_pending_count = (a.metadata_pending_count, b.metadata_pending_count);
  metadata_retryable_count = (a.metadata_retryable_count, b.metadata_retryable_count);
}

-- A new scene is one more row.
one_if_new-count_delta :
    (next : SceneIndexRow) (old : Option SceneIndexRow)
    → one_if_new old ≡ count_delta (λ _. true) next old
unfolding count_delta diff
one_if_new-count_delta next none = refl
one_if_new-count_delta next (some row) = refl

counters-Counts : EachCounter Counts
unfolding Counts add_row
counters-Counts = record {
  indexed_scenes =
      λ delta next old. ap (λ d. delta.indexed_scenes +ℤ d) (one_if_new-count_delta next old);
  acquisition_tracked_scenes = λ _ _ _. refl;
  requested_count = λ _ _ _. refl;
  downloading_count = λ _ _ _. refl;
  import_pending_count = λ _ _ _. refl;
  failed_count = λ _ _ _. refl;
  metadata_pending_count = λ _ _ _. refl;
  metadata_retryable_count = λ _ _ _. refl;
}

-- How a batch moves a counter of the summary.
unfoldable pub Moves : (SceneIndexSummary → ℤ) → (SceneIndexRow → Bool) → Type 0
Moves f p =
    (now : ℕ) (existing : Dict Text SceneIndexRow) (rows : List (Text × SceneIndexRow))
    (summary : SceneIndexSummary)
    → f (
        build_scene_index_summary_delta_update (build_scene_index_summary_delta now rows existing)
          summary)
      ≡ f summary +ℤ diff (sum_next p rows) (sum_old (λ id. get id existing) p rows)

Linear : (SceneIndexSummary → ℤ) → Type 0
Linear f =
    ((at : Option ℕ) → f (zero_delta at) ≡ pos 0)
    × ((delta summary : SceneIndexSummary)
        → f (build_scene_index_summary_delta_update delta summary) ≡ f summary +ℤ f delta)

counters-Linear : EachCounter (λ f _. Linear f)
unfolding Linear build_scene_index_summary_delta_update
counters-Linear = record {
  indexed_scenes = (λ _. refl, λ _ _. refl);
  acquisition_tracked_scenes = (λ _. refl, λ _ _. refl);
  requested_count = (λ _. refl, λ _ _. refl);
  downloading_count = (λ _. refl, λ _ _. refl);
  import_pending_count = (λ _. refl, λ _ _. refl);
  failed_count = (λ _. refl, λ _ _. refl);
  metadata_pending_count = (λ _. refl, λ _ _. refl);
  metadata_retryable_count = (λ _. refl, λ _ _. refl);
}

Counts-Moves :
    (f : SceneIndexSummary → ℤ) (p : SceneIndexRow → Bool) → Counts f p × Linear f → Moves f p
unfolding Moves Linear build_scene_index_summary_delta
Counts-Moves f p (counts, linear) now existing rows summary =
    let at : Option ℕ = elim rows [ [] ↦ none | _ ∷ _ ↦ some now ] in
    linear.1 (add_rows existing (zero_delta at) rows) summary
    ∙ ap (λ d. f summary +ℤ d)
        (add_rows-counter f p existing (zero_delta at) rows counts
          ∙ rw (linear.0 at)
              (zero_add (diff (sum_next p rows) (sum_old (λ id. get id existing) p rows))))

pub counters-Moves : EachCounter Moves
counters-Moves = each_map Counts-Moves (each_both counters-Counts counters-Linear)
