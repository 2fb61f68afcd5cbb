-- ===== src/Indexing/SceneIndex/Runs.antt =====
-- What the chunks of `applySceneIndexPatches` leave in the index, however the database treats
-- their transactions: apps/sp-api/src/indexing/indexing.service.ts.
use mathlib.Core.Option.{some-injective}
use stasharr_portal.Prelude.{
  ◌≡◌, refl, sym, ap, ◌∙◌, ◌⊎◌, inl, inr, true, Option, some, List, ◌++◌, Option-cases, is_some, ℕ,
  [], ◌∷◌, suc, none,
}
use stasharr_portal.Prelude.Text.{Text, eq_text}
use stasharr_portal.Prelude.Dict.{Dict, get}
use stasharr_portal.Indexing.SyncState.{Thrown}
use stasharr_portal.Indexing.SceneIndex.{
  SceneIndexPatch, SceneIndexRow, build_scene_index_upsert_data,
}
use stasharr_portal.Indexing.SceneIndex.Merge.{Distinct, patch_for}
use stasharr_portal.Indexing.SceneIndex.Store.{IndexDatabase, Store, the_row}
use stasharr_portal.Indexing.SceneIndex.Batch.{over, get-set_rows, get-next_rows, next_rows-Unique}
use stasharr_portal.Indexing.SceneIndex.Sound.{Sound}
use stasharr_portal.Indexing.SceneIndex.Attempts.{execute_patch_chunk_lem, last_outcome}
use stasharr_portal.Indexing.SceneIndex.Committed.{Agree, Commit, attempt_chunk-Commit}
use stasharr_portal.Indexing.SceneIndex.Chunks.{
  flat, Distinct-left, Distinct-right, Distinct-apart, patch_for-append, patch_for_id,
  in_append_right, in_append_left,
}
use stasharr_portal.Indexing.SceneIndex.Apply.{
  Queues, queue_for, next_rows, set_rows, returned, attempt_chunk, execute_patch_chunk,
  execute_chunks, thrown,
}
use mathlib.Core.Option
use mathlib.Core.Path.{subst}

module _ (db : IndexDatabase) where
  -- A scene's row by the patch for it, if there is one, and the row before.
  abbrev pub row_by :
      Queues → Text → Option SceneIndexPatch → Option SceneIndexRow → Option SceneIndexRow
  row_by queues j patch old =
      over (Option.map (λ p. build_scene_index_upsert_data old p (queue_for queues j)) patch) old

  -- A scene's row after a list of patches with at most one for it, by the rows before.
  abbrev pub patched_row :
      Queues → List SceneIndexPatch → (Text → Option SceneIndexRow) → Text → Option SceneIndexRow
  patched_row queues patches old j = row_by queues j (patch_for j patches) (old j)

  -- A scene's row is written, or it is as it was and the call ends with an error.
  abbrev pub RowEnd :
      Queues → List SceneIndexPatch → Store db → Store db × Option Thrown → Text → Type 0
  RowEnd queues patches store end j =
      (the_row db end.0 j ≡ patched_row queues patches (the_row db store) j)
      ⊎ ((the_row db end.0 j ≡ the_row db store j) × (is_some end.1 ≡ true))

  -- The rows that a committed chunk leaves.
  Commit-rows :
      (queues : Queues) (chunk : List SceneIndexPatch) (existing : Dict Text SceneIndexRow)
      (store after : Store db)
      → Agree db chunk existing store
      → Commit db queues chunk existing store after
      → (j : Text) → the_row db after j ≡ patched_row queues chunk (the_row db store) j
  unfolding Agree
  Commit-rows queues chunk existing store after agree commit j =
      elim (Option-cases (patch_for j chunk)) [
        | inl e ↦ commit.rows j ∙ rw e refl
        | inr (p, e) ↦
            let id : p.stash_id ≡ j = patch_for_id j chunk p e in
            let old : get j existing ≡ the_row db store j = agree j (rw e refl) in
            commit.rows j
            ∙ rw e (
                ap
                  (λ i.
                    some (build_scene_index_upsert_data (get i existing) p (queue_for queues i)))
                  id
                ∙ ap (λ o. some (build_scene_index_upsert_data o p (queue_for queues j))) old)
      ]

  -- After a committed chunk the map is right on the patches that remain.
  Commit-Agree :
      (queues : Queues) (chunk rest : List SceneIndexPatch) (existing : Dict Text SceneIndexRow)
      (store after : Store db)
      → Distinct chunk
      → Agree db (chunk ++ rest) existing store
      → Commit db queues chunk existing store after
      → Agree db rest (set_rows (next_rows existing queues chunk) existing) after
  unfolding Agree
  Commit-Agree queues chunk rest existing store after distinct agree commit j e =
      get-set_rows (next_rows existing queues chunk) existing j
        (next_rows-Unique existing queues chunk distinct)
      ∙ (rw (get-next_rows existing queues chunk j, agree j (in_append_right j chunk rest e)) refl
          ∙ sym (commit.rows j))

  -- One chunk, then the others.
  chunk_then :
      (queues : Queues) (chunk rest : List SceneIndexPatch) (store after : Store db)
      (end : Store db × Option Thrown) (j : Text)
      → Distinct (chunk ++ rest)
      → the_row db after j ≡ patched_row queues chunk (the_row db store) j
      → RowEnd queues rest after end j
      → RowEnd queues (chunk ++ rest) store end j
  chunk_then queues chunk rest store after end j distinct first h =
      elim (Option-cases (patch_for j chunk)) [
        | inl e ↦
            let same : the_row db after j ≡ the_row db store j =
              first ∙ ap (λ o. row_by queues j o (the_row db store j)) e in
            let patch : patch_for j (chunk ++ rest) ≡ patch_for j rest =
              patch_for-append j chunk rest ∙ ap (λ o. over o (patch_for j rest)) e in
            elim h [
              | inl k ↦ inl (
                  k
                  ∙ (ap (row_by queues j (patch_for j rest)) same
                      ∙ ap (λ o. row_by queues j o (the_row db store j)) (sym patch)))
              | inr (k, error) ↦ inr (k ∙ same, error)
            ]
        | inr (p, e) ↦
            let gone : patch_for j rest ≡ none =
              Distinct-apart chunk rest j distinct (ap is_some e) in
            let patch : patch_for j chunk ≡ patch_for j (chunk ++ rest) =
              e ∙ sym (patch_for-append j chunk rest ∙ ap (λ o. over o (patch_for j rest)) e) in
            let done : the_row db after j
                ≡ patched_row queues (chunk ++ rest) (the_row db store) j =
              first ∙ ap (λ o. row_by queues j o (the_row db store j)) patch in
            elim h [
              | inl k ↦ inl (k ∙ (ap (λ o. row_by queues j o (the_row db after j)) gone ∙ done))
              | inr (k, error) ↦ inl (k ∙ done)
            ]
      ]

  execute_chunks_thrown :
      (now : ℕ) (outcomes : ℕ → ℕ → Option Thrown) (queues : Queues) (chunk : List SceneIndexPatch)
      (chunks : List (List SceneIndexPatch)) (existing : Dict Text SceneIndexRow) (store : Store db)
      (e : Thrown)
      → last_outcome db (outcomes 0) ≡ some e
      → execute_chunks db now outcomes queues (chunk ∷ chunks) existing store ≡ (store, some e)
  unfolding execute_chunks attempt_chunk
  execute_chunks_thrown now outcomes queues chunk chunks existing store e o =
      let t : execute_patch_chunk db now (outcomes 0) queues chunk existing store ≡ thrown e =
        execute_patch_chunk_lem db now (outcomes 0) queues chunk existing store
        ∙ ap (λ x. attempt_chunk db now x queues chunk existing store) o in
      rw (t, execute_chunks) refl

  execute_chunks_returned :
      (now : ℕ) (outcomes : ℕ → ℕ → Option Thrown) (queues : Queues) (chunk : List SceneIndexPatch)
      (chunks : List (List SceneIndexPatch)) (existing : Dict Text SceneIndexRow)
      (store after : Store db) (existing' : Dict Text SceneIndexRow)
      → last_outcome db (outcomes 0) ≡ none
      → attempt_chunk db now none queues chunk existing store ≡ returned after existing'
      → execute_chunks db now outcomes queues (chunk ∷ chunks) existing store
        ≡ execute_chunks db now (λ n. outcomes (suc n)) queues chunks existing' after
  unfolding execute_chunks
  execute_chunks_returned now outcomes queues chunk chunks existing store after existing' o done =
      let t : execute_patch_chunk db now (outcomes 0) queues chunk existing store
          ≡ returned after existing' =
        execute_patch_chunk_lem db now (outcomes 0) queues chunk existing store
        ∙ (ap (λ x. attempt_chunk db now x queues chunk existing store) o ∙ done) in
      rw (t, execute_chunks) refl

  -- What holds of a run over chunks.
  abbrev pub RunEnd : Queues → List SceneIndexPatch → Store db → Store db × Option Thrown → Type 0
  RunEnd queues patches store end =
      Sound db end.0 × ((j : Text) → RowEnd queues patches store end j)

  pub execute_chunks-RunEnd :
      (now : ℕ) (outcomes : ℕ → ℕ → Option Thrown) (queues : Queues)
      (chunks : List (List SceneIndexPatch)) (existing : Dict Text SceneIndexRow) (store : Store db)
      → Distinct (flat chunks)
      → Agree db (flat chunks) existing store
      → Sound db store
      → RunEnd queues
          (flat chunks)
          store
          (execute_chunks db now outcomes queues chunks existing store)
  unfolding Agree execute_chunks
  execute_chunks-RunEnd now outcomes queues [] existing store distinct agree sound =
      (sound, λ j. inl refl)
  execute_chunks-RunEnd now outcomes queues (chunk ∷ chunks) existing store distinct agree sound =
      elim (Option-cases (last_outcome db (outcomes 0))) [
        | inr (e, o) ↦
            subst (RunEnd queues (chunk ++ flat chunks) store)
              (sym (execute_chunks_thrown now outcomes queues chunk chunks existing store e o))
              (sound, λ j. inr (refl, refl))
        | inl o ↦
            go o
              (λ existing' after agree' sound'.
                execute_chunks-RunEnd now (λ n. outcomes (suc n)) queues chunks existing' after
                  (Distinct-right chunk (flat chunks) distinct) agree' sound')
              (attempt_chunk-Commit db now queues chunk existing store here
                (λ j e. agree j (in_append_left j chunk (flat chunks) e)) sound)
      ]
    where
      here : Distinct chunk
      here = Distinct-left chunk (flat chunks) distinct

      go :
          last_outcome db (outcomes 0) ≡ none
          → ((existing' : Dict Text SceneIndexRow) (after : Store db)
              → Agree db (flat chunks) existing' after
              → Sound db after
              → RunEnd queues
                  (flat chunks)
                  after
                  (execute_chunks db now (λ n. outcomes (suc n)) queues chunks existing' after))
          → (after : Store db) × ((attempt_chunk db now none queues chunk existing store
                ≡ returned after (set_rows (next_rows existing queues chunk) existing))
              × Commit db queues chunk existing store after)
          → RunEnd queues
              (chunk ++ flat chunks)
              store
              (execute_chunks db now outcomes queues (chunk ∷ chunks) existing store)
      go o rest_of (after, (done, commit)) =
          let existing' : Dict Text SceneIndexRow =
            set_rows (next_rows existing queues chunk) existing in
          let rest : RunEnd queues (flat chunks) after
              (execute_chunks db now (λ n. outcomes (suc n)) queues chunks existing' after) =
            rest_of existing' after
              (Commit-Agree queues chunk (flat chunks) existing store after here agree commit)
              commit.sound in
          subst (RunEnd queues (chunk ++ flat chunks) store)
            (sym (
              execute_chunks_returned now outcomes queues chunk chunks existing store after
                existing' o done))
            (
              rest.0,
              λ j.
                  chunk_then queues chunk (flat chunks) store after
                    (execute_chunks db now (λ n. outcomes (suc n)) queues chunks existing' after) j
                    distinct
                    (Commit-rows queues chunk existing store after
                      (λ k e. agree k (in_append_left k chunk (flat chunks) e)) commit j)
                    (rest.1 j),
            )
