-- ===== src/Indexing/SceneIndex/Chunks.antt =====
-- The order and the slices of the merged patches lose none of them and double none:
-- apps/sp-api/src/indexing/indexing.service.ts.
use stasharr_portal.Prelude.{
  ℕ, zero, suc, ◌≤◌, ◌≡◌, refl, sym, ap, ◌∙◌, inl, inr, true, Option, none, some, List, [], ◌∷◌,
  ◌++◌, arith, if◌then◌else◌, Bool-cases, is_some, length, take, drop, length-drop, false, Bool,
}
use stasharr_portal.Prelude.Text.{Text, eq_text, text_eq, text_eq_iff}
use stasharr_portal.Prelude.Dict.{Dict, get, put, get-put}
use stasharr_portal.Indexing.SceneIndex.{SceneIndexPatch, SceneIndexRow}
use stasharr_portal.Indexing.SceneIndex.Merge.{Distinct, patch_for}
use stasharr_portal.Indexing.SceneIndex.Store.{IndexDatabase}
use stasharr_portal.Indexing.SceneIndex.Batch.{over}
use stasharr_portal.Indexing.SceneIndex.Apply.{read_rows, insert_patch, sort_patches, chunks_from}
use mathlib.Core.Option.{some-injective}

pub patch_for_id :
    (j : Text) (patches : List SceneIndexPatch) (p : SceneIndexPatch)
    → patch_for j patches ≡ some p
    → p.stash_id ≡ j
patch_for_id j [] p h = cc h
patch_for_id j (q ∷ patches) p h = elim (Bool-cases (text_eq q.stash_id j)) [
  | inl e ↦
      let same : q ≡ p = some-injective q p (rw e at h) in
      ap (λ r. r.stash_id) (sym same) ∙ (text_eq_iff q.stash_id j).0 e
  | inr e ↦ patch_for_id j patches p (rw e at h)
]

pub patch_for-append :
    (j : Text) (xs ys : List SceneIndexPatch)
    → patch_for j (xs ++ ys) ≡ over (patch_for j xs) (patch_for j ys)
patch_for-append j [] ys = refl
patch_for-append j (p ∷ xs) ys = elim (Bool-cases (text_eq p.stash_id j)) [
  | inl e ↦ rw e refl
  | inr e ↦ rw e (patch_for-append j xs ys)
]

is_some-over : {A : Type 0} (x y : Option A) → is_some y ≡ true → is_some (over x y) ≡ true
is_some-over none y h = h
is_some-over (some x) y h = refl

pub in_append_right :
    (j : Text) (xs ys : List SceneIndexPatch)
    → is_some (patch_for j ys) ≡ true
    → is_some (patch_for j (xs ++ ys)) ≡ true
in_append_right j xs ys h =
    ap is_some (patch_for-append j xs ys) ∙ is_some-over (patch_for j xs) (patch_for j ys) h

pub in_append_left :
    (j : Text) (xs ys : List SceneIndexPatch)
    → is_some (patch_for j xs) ≡ true
    → is_some (patch_for j (xs ++ ys)) ≡ true
in_append_left j [] ys h = cc h
in_append_left j (p ∷ xs) ys h = elim (Bool-cases (text_eq p.stash_id j)) [
  | inl e ↦ rw e refl
  | inr e ↦ rw e (in_append_left j xs ys (rw e at h))
]

over-none : {A : Type 0} (x y : Option A) → over x y ≡ none → (x ≡ none) × (y ≡ none)
over-none none y h = (refl, h)
over-none (some x) y h = cc h

pub Distinct-left : (xs ys : List SceneIndexPatch) → Distinct (xs ++ ys) → Distinct xs
Distinct-left [] ys h = tt
Distinct-left (p ∷ xs) ys (fresh, h) = (
  (over-none (patch_for p.stash_id xs) (patch_for p.stash_id ys)
      (sym (patch_for-append p.stash_id xs ys) ∙ fresh)).0,
  Distinct-left xs ys h,
)

pub Distinct-right : (xs ys : List SceneIndexPatch) → Distinct (xs ++ ys) → Distinct ys
Distinct-right [] ys h = h
Distinct-right (p ∷ xs) ys (_, h) = Distinct-right xs ys h

-- A scene of the first part is none of the second.
pub Distinct-apart :
    (xs ys : List SceneIndexPatch) (j : Text)
    → Distinct (xs ++ ys)
    → is_some (patch_for j xs) ≡ true
    → patch_for j ys ≡ none
Distinct-apart [] ys j h e = cc e
Distinct-apart (p ∷ xs) ys j (fresh, h) e = elim (Bool-cases (text_eq p.stash_id j)) [
  | inl d ↦
      ap (λ k. patch_for k ys) (sym ((text_eq_iff p.stash_id j).0 d))
      ∙ (over-none (patch_for p.stash_id xs) (patch_for p.stash_id ys)
          (sym (patch_for-append p.stash_id xs ys) ∙ fresh)).1
  | inr d ↦ Distinct-apart xs ys j h (rw d at e)
]

abbrev pub flat : List (List SceneIndexPatch) → List SceneIndexPatch
flat [] = []
flat (chunk ∷ chunks) = chunk ++ flat chunks

-- A scene that a list has no patch for is not that of its first.
fresh_parts :
    (i : Text) (q : SceneIndexPatch) (patches : List SceneIndexPatch)
    → patch_for i (q ∷ patches) ≡ none
    → (text_eq q.stash_id i ≡ false) × (patch_for i patches ≡ none)
fresh_parts i q patches h = elim (Bool-cases (text_eq q.stash_id i)) [
  | inl e ↦ cc (rw e at h)
  | inr e ↦ (e, rw e at h)
]

over_self : (o : Option SceneIndexRow) (b : Bool) → over o (if b then o else none) ≡ o
over_self none true = refl
over_self none false = refl
over_self (some row) b = refl

text_eq-false_sym : (s t : Text) → text_eq s t ≡ false → text_eq t s ≡ false
text_eq-false_sym s t h = elim (Bool-cases (text_eq t s)) [
  | inl e ↦ cc (sym ((text_eq_iff s t).1 (sym ((text_eq_iff t s).0 e))) ∙ h)
  | inr e ↦ e
]

-- `findMany` on one scene more.
read_one :
    (i j : Text) (found : Option SceneIndexRow) (old : Dict Text SceneIndexRow)
    (f : Text → Option SceneIndexRow)
    → found ≡ f i
    → get j (elim found [ none ↦ old | some row ↦ put i row old ])
      ≡ (if text_eq i j then over (f j) (get j old) else get j old)
read_one i j none old f h = elim (Bool-cases (text_eq i j)) [
  | inl e ↦ rw e (rw (ap f (sym ((text_eq_iff i j).0 e)) ∙ sym h) refl)
  | inr e ↦ rw e refl
]
read_one i j (some row) old f h = elim (Bool-cases (text_eq i j)) [
  | inl e ↦ get-put i j row old ∙ rw e (rw (ap f (sym ((text_eq_iff i j).0 e)) ∙ sym h) refl)
  | inr e ↦ get-put i j row old ∙ rw e refl
]

take-append-drop : (n : ℕ) (xs : List SceneIndexPatch) → take n xs ++ drop n xs ≡ xs
take-append-drop zero xs = refl
take-append-drop (suc n) [] = refl
take-append-drop (suc n) (x ∷ xs) = ap (λ ys. x ∷ ys) (take-append-drop n xs)

module _ (db : IndexDatabase) where
  -- Fuel for every patch is enough for the slices to hold them all.
  pub chunks_from-flat :
      (fuel : ℕ) (patches : List SceneIndexPatch)
      → length patches ≤ fuel
      → flat (chunks_from db fuel patches) ≡ patches
  unfolding chunks_from
  chunks_from-flat zero [] h = refl
  chunks_from-flat zero (p ∷ patches) h = ground arith
  chunks_from-flat (suc fuel) [] h = refl
  chunks_from-flat (suc fuel) (p ∷ patches) h =
      ap (λ ys. p ∷ (take 99 patches ++ ys))
        (chunks_from-flat fuel (drop 99 patches) (omega (arith, h, length-drop 99 patches)))
      ∙ ap (λ ys. p ∷ ys) (take-append-drop 99 patches)

  insert_patch-patch_for :
      (j : Text) (p : SceneIndexPatch) (patches : List SceneIndexPatch)
      → patch_for p.stash_id patches ≡ none
      → patch_for j (insert_patch db p patches)
        ≡ (if text_eq p.stash_id j then some p else patch_for j patches)
  unfolding insert_patch
  insert_patch-patch_for j p [] fresh = refl
  insert_patch-patch_for j p (q ∷ patches) fresh =
      elim (Bool-cases (db.locale_le p.stash_id q.stash_id)) [
        | inl e ↦ rw e refl
        | inr e ↦
            let (differ, rest) = fresh_parts p.stash_id q patches fresh in
            rw e (
              ap (λ o. if text_eq q.stash_id j then some q else o)
                (insert_patch-patch_for j p patches rest)
              ∙ swap (text_eq-false_sym q.stash_id p.stash_id differ))
      ]
    where
      swap :
          text_eq p.stash_id q.stash_id ≡ false
          → (if text_eq q.stash_id j
              then some q
              else if text_eq p.stash_id j
              then some p
              else patch_for j patches)
            ≡ (if text_eq p.stash_id j
                then some p
                else if text_eq q.stash_id j
                then some q
                else patch_for j patches)
      swap d = elim (Bool-cases (text_eq q.stash_id j)) [
        | inl a ↦
            let other : text_eq p.stash_id j ≡ false =
              ap (λ i. text_eq p.stash_id i) (sym ((text_eq_iff q.stash_id j).0 a)) ∙ d in
            rw (a, other) refl
        | inr a ↦ rw a refl
      ]

  insert_patch-Distinct :
      (p : SceneIndexPatch) (patches : List SceneIndexPatch)
      → patch_for p.stash_id patches ≡ none
      → Distinct patches
      → Distinct (insert_patch db p patches)
  unfolding insert_patch
  insert_patch-Distinct p [] fresh h = (refl, tt)
  insert_patch-Distinct p (q ∷ patches) fresh (other, h) =
      elim (Bool-cases (db.locale_le p.stash_id q.stash_id)) [
        | inl e ↦ rw e (fresh, (other, h))
        | inr e ↦ rw e (
            let (differ, rest) = fresh_parts p.stash_id q patches fresh in
            (
              insert_patch-patch_for q.stash_id p patches rest
                  ∙ rw (text_eq-false_sym q.stash_id p.stash_id differ) other,
              insert_patch-Distinct p patches rest h,
            ))
      ]

  pub sort_patches-Sorted :
      (patches : List SceneIndexPatch)
      → Distinct patches
      → Distinct (sort_patches db patches)
        × ((j : Text) → patch_for j (sort_patches db patches) ≡ patch_for j patches)
  unfolding sort_patches
  sort_patches-Sorted [] h = (tt, λ j. refl)
  sort_patches-Sorted (p ∷ patches) (fresh, h) =
      let (distinct, same) = sort_patches-Sorted patches h in
      let free : patch_for p.stash_id (sort_patches db patches) ≡ none = same p.stash_id ∙ fresh in
      (
        insert_patch-Distinct p (sort_patches db patches) free distinct,
        λ j.
            insert_patch-patch_for j p (sort_patches db patches) free
            ∙ ap (λ o. if text_eq p.stash_id j then some p else o) (same j),
      )

  pub get-read_rows :
      (patches : List SceneIndexPatch) (rows : db.scenes.table.Rows) (j : Text)
      → get j (read_rows db patches rows)
        ≡ (if is_some (patch_for j patches) then db.scenes.table.find_unique j rows else none)
  unfolding read_rows get
  get-read_rows [] rows j = refl
  get-read_rows (p ∷ patches) rows j =
      read_one p.stash_id j (db.scenes.table.find_unique p.stash_id rows)
        (read_rows db patches rows) (λ i. db.scenes.table.find_unique i rows) refl
      ∙ elim (Bool-cases (text_eq p.stash_id j)) [
        | inl e ↦ rw e (
            ap (λ o. over (db.scenes.table.find_unique j rows) o) (get-read_rows patches rows j)
            ∙ over_self (db.scenes.table.find_unique j rows) (is_some (patch_for j patches)))
        | inr e ↦ rw e (get-read_rows patches rows j)
      ]
