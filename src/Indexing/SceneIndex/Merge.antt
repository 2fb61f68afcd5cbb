-- ===== src/Indexing/SceneIndex/Merge.antt =====
-- One patch for each scene, `mergePatchesByStashId` of
-- apps/sp-api/src/indexing/indexing.service.ts, and its order by `stashId`.
use stasharr_portal.Prelude.{
  ◌≡◌, refl, inl, inr, Option, none, some, List, [], ◌∷◌, if◌then◌else◌, Bool-cases, ℕ, ap, ◌∙◌,
  arith, Bool, true, false,
}
use stasharr_portal.Prelude.Text.{Text, eq_text, trim, text_eq, text_eq_iff, is_empty}
use stasharr_portal.Prelude.Dict.{Dict, get, put, get-put}
use stasharr_portal.Indexing.SceneIndex.{SceneIndexPatch, empty_patch, overlay}

-- `merged.get(stashId) ?? { stashId }`
abbrev or_empty : Text → Option SceneIndexPatch → SceneIndexPatch
or_empty id none = empty_patch id
or_empty id (some patch) = patch

abbrev add_patch : Text → SceneIndexPatch → Dict Text SceneIndexPatch → Dict Text SceneIndexPatch
add_patch id patch merged =
    if is_empty id then merged else put id (overlay id (or_empty id (get id merged)) patch) merged

-- The loop of `mergePatchesByStashId`.
unfoldable pub merge_into :
    Dict Text SceneIndexPatch → List SceneIndexPatch → Dict Text SceneIndexPatch
merge_into merged [] = merged
merge_into merged (patch ∷ patches) =
    merge_into (add_patch (trim patch.stash_id) patch merged) patches

abbrev pub values {ℓ} : {V : Type ℓ} → Dict Text V → List V
values [] = []
values ((k, v) ∷ m) = v ∷ values m

unfoldable pub merge_patches_by_stash_id : List SceneIndexPatch → List SceneIndexPatch
unfolding merge_into
merge_patches_by_stash_id patches = values (merge_into [] patches)

-- The patch of a scene in a list.
abbrev pub patch_for : Text → List SceneIndexPatch → Option SceneIndexPatch
patch_for id [] = none
patch_for id (patch ∷ patches) =
    if text_eq patch.stash_id id then some patch else patch_for id patches

-- No two patches of the list are of one scene.
abbrev pub Distinct : List SceneIndexPatch → Type 0
Distinct [] = Unit
Distinct (patch ∷ patches) = (patch_for patch.stash_id patches ≡ none) × Distinct patches

-- Every key of the map is its patch's scene, once.
abbrev Keyed : Dict Text SceneIndexPatch → Type 0
Keyed [] = Unit
Keyed ((k, patch) ∷ m) = (patch.stash_id ≡ k) × (get k m ≡ none) × Keyed m

put-Keyed :
    (k : Text) (patch : SceneIndexPatch) (m : Dict Text SceneIndexPatch)
    → patch.stash_id ≡ k
    → Keyed m
    → Keyed (put k patch m)
unfolding put get
put-Keyed k patch [] e h = (e, refl, tt)
put-Keyed k patch ((j, other) ∷ m) e (f, fresh, h) = elim (Bool-cases (text_eq j k)) [
  | inl same ↦ rw same (e, rw (← ((text_eq_iff j k).0 same)) fresh, h)
  | inr differ ↦ rw differ (
    f,
    ground (arith, fresh, get-put k j patch m, text_eq_iff k j, text_eq_iff j k),
    put-Keyed k patch m e h,
  )
]

-- What the loop leaves for one scene, from what was there: later properties over earlier ones.
abbrev pub overlays : Text → Option SceneIndexPatch → List SceneIndexPatch → Option SceneIndexPatch
overlays id acc [] = acc
overlays id acc (patch ∷ patches) =
    if text_eq (trim patch.stash_id) id
    then overlays id (some (overlay id (or_empty id acc) patch)) patches
    else overlays id acc patches

add_patch-Keyed :
    (id : Text) (patch : SceneIndexPatch) (m : Dict Text SceneIndexPatch)
    → Keyed m
    → Keyed (add_patch id patch m)
unfolding overlay
add_patch-Keyed [] patch m h = h
add_patch-Keyed (c ∷ id) patch m h =
    put-Keyed (c ∷ id) (overlay (c ∷ id) (or_empty (c ∷ id) (get (c ∷ id) m)) patch) m refl h

merge_into-Keyed :
    (m : Dict Text SceneIndexPatch) (patches : List SceneIndexPatch)
    → Keyed m
    → Keyed (merge_into m patches)
unfolding merge_into
merge_into-Keyed m [] h = h
merge_into-Keyed m (patch ∷ patches) h =
    merge_into-Keyed (add_patch (trim patch.stash_id) patch m) patches
      (add_patch-Keyed (trim patch.stash_id) patch m h)

patch_for-values :
    (id : Text) (m : Dict Text SceneIndexPatch) → Keyed m → patch_for id (values m) ≡ get id m
unfolding get
patch_for-values id [] h = refl
patch_for-values id ((k, patch) ∷ m) (e, _, h) = rw (e, patch_for-values id m h)

values-Distinct : (m : Dict Text SceneIndexPatch) → Keyed m → Distinct (values m)
values-Distinct [] h = tt
values-Distinct ((k, patch) ∷ m) (e, fresh, h) =
    (patch_for-values patch.stash_id m h ∙ (ap (λ j. get j m) e ∙ fresh), values-Distinct m h)

-- `merged` after one patch, at a key that is not blank.
get-add_patch :
    (c : ℕ) (id j : Text) (patch : SceneIndexPatch) (m : Dict Text SceneIndexPatch)
    → get (c ∷ id) (add_patch j patch m) ≡ (
        if text_eq j (c ∷ id)
        then some (overlay (c ∷ id) (or_empty (c ∷ id) (get (c ∷ id) m)) patch)
        else get (c ∷ id) m)
unfolding text_eq
get-add_patch c id [] patch m = refl
get-add_patch c id (d ∷ j) patch m = elim (Bool-cases (text_eq (d ∷ j) (c ∷ id))) [
  | inl same ↦
      get-put (d ∷ j) (c ∷ id) (overlay (d ∷ j) (or_empty (d ∷ j) (get (d ∷ j) m)) patch) m
      ∙ rw same (
          ap (λ i. some (overlay i (or_empty i (get i m)) patch))
            ((text_eq_iff (d ∷ j) (c ∷ id)).0 same))
  | inr differ ↦
      get-put (d ∷ j) (c ∷ id) (overlay (d ∷ j) (or_empty (d ∷ j) (get (d ∷ j) m)) patch) m
      ∙ rw differ refl
]

overlays_if :
    (id : Text) (b : Bool) (x y : Option SceneIndexPatch) (patches : List SceneIndexPatch)
    → overlays id (if b then x else y) patches
      ≡ (if b then overlays id x patches else overlays id y patches)
overlays_if id true x y patches = refl
overlays_if id false x y patches = refl

get-merge_into :
    (c : ℕ) (id : Text) (m : Dict Text SceneIndexPatch) (patches : List SceneIndexPatch)
    → get (c ∷ id) (merge_into m patches) ≡ overlays (c ∷ id) (get (c ∷ id) m) patches
unfolding merge_into
get-merge_into c id m [] = refl
get-merge_into c id m (patch ∷ patches) =
    get-merge_into c id (add_patch (trim patch.stash_id) patch m) patches
    ∙ rw (get-add_patch c id (trim patch.stash_id) patch m) (
        overlays_if (c ∷ id) (text_eq (trim patch.stash_id) (c ∷ id))
          (some (overlay (c ∷ id) (or_empty (c ∷ id) (get (c ∷ id) m)) patch)) (get (c ∷ id) m)
          patches)

-- Blank ids are skipped.
get-merge_into_blank :
    (m : Dict Text SceneIndexPatch) (patches : List SceneIndexPatch)
    → get [] m ≡ none
    → get [] (merge_into m patches) ≡ none
unfolding merge_into text_eq
get-merge_into_blank m [] h = h
get-merge_into_blank m (patch ∷ patches) h =
    get-merge_into_blank (add_patch (trim patch.stash_id) patch m) patches
      (stays (trim patch.stash_id))
  where
    stays : (id : Text) → get [] (add_patch id patch m) ≡ none
    stays [] = h
    stays (c ∷ id) =
        get-put (c ∷ id) [] (overlay (c ∷ id) (or_empty (c ∷ id) (get (c ∷ id) m)) patch) m ∙ h

-- `mergePatchesByStashId` yields at most one patch for each scene.
pub merge_patches_by_stash_id-Distinct :
    (patches : List SceneIndexPatch) → Distinct (merge_patches_by_stash_id patches)
unfolding merge_patches_by_stash_id
merge_patches_by_stash_id-Distinct patches =
    values-Distinct (merge_into [] patches) (merge_into-Keyed [] patches tt)

-- For a scene id that is not blank, the merged patch is the overlay, in their order, of the
-- patches whose trimmed id it is, and there is none if there are none.
pub merge_patches_by_stash_id-patch_for :
    (c : ℕ) (id : Text) (patches : List SceneIndexPatch)
    → patch_for (c ∷ id) (merge_patches_by_stash_id patches) ≡ overlays (c ∷ id) none patches
unfolding merge_patches_by_stash_id get
merge_patches_by_stash_id-patch_for c id patches =
    patch_for-values (c ∷ id) (merge_into [] patches) (merge_into-Keyed [] patches tt)
    ∙ get-merge_into c id [] patches

-- No merged patch is of a blank id.
pub merge_patches_by_stash_id_blank :
    (patches : List SceneIndexPatch) → patch_for [] (merge_patches_by_stash_id patches) ≡ none
unfolding merge_patches_by_stash_id get
merge_patches_by_stash_id_blank patches =
    patch_for-values [] (merge_into [] patches) (merge_into-Keyed [] patches tt)
    ∙ get-merge_into_blank [] patches refl
