-- ===== src/Indexing/SceneIndex/Batch.antt =====
-- What the upserts of one transaction leave in the table, in the map of existing rows and in a
-- count, apps/sp-api/src/indexing/indexing.service.ts.
use stasharr_portal.Prelude.{
  ◌+◌, ◌≡◌, refl, sym, ap, ◌∙◌, inl, inr, Bool, true, Option, none, some, List, [], ◌∷◌, arith,
  if◌then◌else◌, Bool-cases, is_some,
}
use stasharr_portal.Prelude.Text.{Text, eq_text, text_eq, text_eq_iff, text_eq_refl}
use stasharr_portal.Prelude.Dict.{Dict, get, put, get-put}
use stasharr_portal.Database.{hits, upserted}
use stasharr_portal.Indexing.SceneIndex.{SceneIndexPatch, SceneIndexRow}
use stasharr_portal.Indexing.SceneIndex.Merge.{Distinct, patch_for}
use stasharr_portal.Indexing.SceneIndex.Deltas.{sum_next, sum_old}
use stasharr_portal.Indexing.SceneIndex.Store.{IndexDatabase}
use stasharr_portal.Indexing.SceneIndex.Apply.{Queues, next_row, next_rows, set_rows, upsert_rows}
use mathlib.Core.Option

-- A value, or another where there is none.
abbrev pub over {ℓ} : {A : Type ℓ} → Option A → Option A → Option A
over none y = y
over (some x) y = some x

-- No key of the batch stands twice.
abbrev pub Unique : Dict Text SceneIndexRow → Type 0
Unique [] = Unit
Unique ((k, row) ∷ rows) = (get k rows ≡ none) × Unique rows

pub get-next_rows :
    (existing : Dict Text SceneIndexRow) (queues : Queues) (chunk : List SceneIndexPatch) (j : Text)
    → get j (next_rows existing queues chunk)
      ≡ Option.map (next_row existing queues) (patch_for j chunk)
unfolding next_rows get
get-next_rows existing queues [] j = refl
get-next_rows existing queues (patch ∷ chunk) j = elim (Bool-cases (text_eq patch.stash_id j)) [
  | inl e ↦ rw e refl
  | inr e ↦ rw e (get-next_rows existing queues chunk j)
]

pub next_rows-Unique :
    (existing : Dict Text SceneIndexRow) (queues : Queues) (chunk : List SceneIndexPatch)
    → Distinct chunk
    → Unique (next_rows existing queues chunk)
unfolding next_rows
next_rows-Unique existing queues [] h = tt
next_rows-Unique existing queues (patch ∷ chunk) (fresh, h) = (
  get-next_rows existing queues chunk patch.stash_id
      ∙ ap (Option.map (next_row existing queues)) fresh,
  next_rows-Unique existing queues chunk h,
)

-- One row, then the others.
over-step :
    (id j : Text) (row : SceneIndexRow) (rows : Dict Text SceneIndexRow)
    (old : Option SceneIndexRow)
    → get id rows ≡ none
    → over (get j rows) (if text_eq id j then some row else old)
      ≡ over (get j ((id, row) ∷ rows)) old
unfolding get
over-step id j row rows old fresh = elim (Bool-cases (text_eq id j)) [
  | inl e ↦
      let same : get j rows ≡ none = ap (λ k. get k rows) (sym ((text_eq_iff id j).0 e)) ∙ fresh in
      rw (e, same) refl
  | inr e ↦ rw e refl
]

pub get-set_rows :
    (rows existing : Dict Text SceneIndexRow) (j : Text)
    → Unique rows
    → get j (set_rows rows existing) ≡ over (get j rows) (get j existing)
unfolding set_rows get
get-set_rows [] existing j h = refl
get-set_rows ((id, row) ∷ rows) existing j (fresh, h) =
    get-set_rows rows (put id row existing) j h
    ∙ rw (get-put id j row existing) (over-step id j row rows (get j existing) fresh)

module _ (db : IndexDatabase) where
  upserted_same :
      (row : SceneIndexRow) (old : Option SceneIndexRow) → upserted row (λ _. row) old ≡ row
  upserted_same row none = refl
  upserted_same row (some _) = refl

  find-upsert_same :
      (id j : Text) (row : SceneIndexRow) (rows : db.scenes.table.Rows)
      → db.scenes.table.find_unique j (db.scenes.table.upsert id row (λ _. row) rows)
        ≡ (if text_eq id j then some row else db.scenes.table.find_unique j rows)
  find-upsert_same id j row rows =
      db.scenes.table.find-upsert id j row (λ _. row) rows
      ∙ ap (λ r. if text_eq id j then some r else db.scenes.table.find_unique j rows)
          (upserted_same row (db.scenes.table.find_unique id rows))

  pub find-upsert_rows :
      (next : Dict Text SceneIndexRow) (rows : db.scenes.table.Rows) (j : Text)
      → Unique next
      → db.scenes.table.find_unique j (upsert_rows db next rows)
        ≡ over (get j next) (db.scenes.table.find_unique j rows)
  unfolding upsert_rows get
  find-upsert_rows [] rows j h = refl
  find-upsert_rows ((id, row) ∷ next) rows j (fresh, h) =
      find-upsert_rows next (db.scenes.table.upsert id row (λ _. row) rows) j h
      ∙ rw (find-upsert_same id j row rows)
          (over-step id j row next (db.scenes.table.find_unique j rows) fresh)

  -- A look-up that agrees on the keys of the batch gives the same sum.
  pub sum_old_ext :
      (f g : Text → Option SceneIndexRow) (p : SceneIndexRow → Bool)
      (next : Dict Text SceneIndexRow)
      → ((j : Text) → is_some (get j next) ≡ true → f j ≡ g j)
      → Unique next
      → sum_old f p next ≡ sum_old g p next
  unfolding get
  sum_old_ext f g p [] agree h = refl
  sum_old_ext f g p ((id, row) ∷ next) agree (fresh, h) =
      let here : f id ≡ g id = agree id (rw (text_eq_refl id) refl) in
      let rest : sum_old f p next ≡ sum_old g p next =
        sum_old_ext f g p next (λ j e. agree j (in_rest j e)) h in
      rw (here, rest) refl
    where
      in_rest : (j : Text) → is_some (get j next) ≡ true → is_some (get j ((id, row) ∷ next)) ≡ true
      in_rest j e = elim (Bool-cases (text_eq id j)) [ inl d ↦ rw d refl | inr d ↦ rw d e ]

  pub count-upsert_rows :
      (p : SceneIndexRow → Bool) (next : Dict Text SceneIndexRow) (rows : db.scenes.table.Rows)
      → Unique next
      → db.scenes.count p (upsert_rows db next rows)
          + sum_old (λ id. db.scenes.table.find_unique id rows) p next
        ≡ db.scenes.count p rows + sum_next p next
  unfolding upsert_rows
  count-upsert_rows p [] rows h = omega arith
  count-upsert_rows p ((id, row) ∷ next) rows (fresh, h) =
      let after : db.scenes.table.Rows = db.scenes.table.upsert id row (λ _. row) rows in
      let old : Text → Option SceneIndexRow = λ j. db.scenes.table.find_unique j rows in
      let first : db.scenes.count p after + hits p (old id)
          ≡ db.scenes.count p rows + hits p (some row) =
        db.scenes.count-upsert p id row (λ _. row) rows
        ∙ ap (λ r. db.scenes.count p rows + hits p (some r)) (upserted_same row (old id)) in
      let same : sum_old (λ j. db.scenes.table.find_unique j after) p next ≡ sum_old old p next =
        sum_old_ext (λ j. db.scenes.table.find_unique j after) old p next kept h in
      omega (arith, first, same, count-upsert_rows p next after h)
    where
      kept :
          (j : Text)
          → is_some (get j next) ≡ true
          → db.scenes.table.find_unique j (db.scenes.table.upsert id row (λ _. row) rows)
            ≡ db.scenes.table.find_unique j rows
      kept j e = elim (Bool-cases (text_eq id j)) [
        | inl d ↦
            let gone : get j next ≡ none =
              ap (λ k. get k next) (sym ((text_eq_iff id j).0 d)) ∙ fresh in
            cc (e, ap is_some gone)
        | inr d ↦ find-upsert_same id j row rows ∙ rw d refl
      ]
