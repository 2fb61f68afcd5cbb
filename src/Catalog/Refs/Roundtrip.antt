-- ===== src/Catalog/Refs/Roundtrip.antt =====
-- A scene reference that is built reads back as what it was built from.
use mathlib.Core.Option.{some-injective}
use stasharr_portal.Prelude.Text.{
  Text, eq_text, trim_start, trim_end, trim, is_empty, trim_idem, trim_end-trim, text, text_eq,
  trim_end-append,
}
use stasharr_portal.Prelude.{
  ◌≡◌, inl, inr, false, Option, none, some, ◌∷◌, ◌++◌, Bool-cases, refl, sym, ap, ◌∙◌, Option-cases,
}
use mathlib.Core.Option
use mathlib.Core.Path.{subst}
use stasharr_portal.Catalog.{CatalogProviderKey, stashdb, fansdb, key_text, key_of}
use stasharr_portal.Catalog.Refs.{
  normalize_value, build_catalog_scene_ref, parse_catalog_scene_ref, CatalogSceneRef, separator,
  ref_of, split_at,
}

-- What `normalizeValue` gives is trimmed and not empty.
pub normalize_value-trimmed :
    (value : Option Text) (id : Text)
    → normalize_value value ≡ some id
    → (is_empty id ≡ false) × ((trim id ≡ id) × (trim_end id ≡ id))
unfolding normalize_value
normalize_value-trimmed none id h = cc h
normalize_value-trimmed (some value) id h = elim (Bool-cases (is_empty (trim value))) [
  | inl e ↦ cc (rw (e, normalize_value) at h)
  | inr e ↦
      let same : trim value ≡ id = some-injective (trim value) id (rw (e, normalize_value) at h) in
      rw (← same) (e, (trim_idem value, trim_end-trim value))
]

trim-ref :
    (key : CatalogProviderKey) (id : Text)
    → is_empty id ≡ false
    → trim_end id ≡ id
    → trim (key_text key ++ (separator ∷ id)) ≡ key_text key ++ (separator ∷ id)
unfolding trim trim_start
trim-ref stashdb id full solid =
    trim_end-append (text "STASHDB|") id (λ e. cc (full, ap is_empty (sym solid ∙ e)))
    ∙ ap (λ s. text "STASHDB|" ++ s) solid
trim-ref fansdb id full solid =
    trim_end-append (text "FANSDB|") id (λ e. cc (full, ap is_empty (sym solid ∙ e)))
    ∙ ap (λ s. text "FANSDB|" ++ s) solid

normalize_value-solid :
    (s : Text) → trim s ≡ s → is_empty s ≡ false → normalize_value (some s) ≡ some s
unfolding normalize_value
normalize_value-solid s same full = rw (same, full, normalize_value) refl

abbrev pub ref : CatalogProviderKey → Text → CatalogSceneRef
ref key id = record { provider_key = key; external_id = id }

pub parse-built :
    (key : CatalogProviderKey) (id : Text)
    → is_empty id ≡ false
    → trim id ≡ id
    → trim_end id ≡ id
    → parse_catalog_scene_ref (some (key_text key ++ (separator ∷ id))) ≡ some (ref key id)
unfolding parse_catalog_scene_ref ref_of key_of text_eq
parse-built stashdb id full same solid =
    rw
      (
        normalize_value-solid (text "STASHDB|" ++ id) (trim-ref stashdb id full solid) refl,
        parse_catalog_scene_ref,
      )
      (rw (same, full, ref_of) refl)
parse-built fansdb id full same solid =
    rw
      (
        normalize_value-solid (text "FANSDB|" ++ id) (trim-ref fansdb id full solid) refl,
        parse_catalog_scene_ref,
      )
      (rw (same, full, ref_of) refl)

-- A reference that is built from a provider and any id reads back as that provider and the trimmed
-- id; none is built from an id that is missing or blank.
pub parse-build_catalog_scene_ref :
    (key : CatalogProviderKey) (external_id : Option Text)
    → Option.map (λ r. parse_catalog_scene_ref (some r)) (build_catalog_scene_ref key external_id)
      ≡ Option.map (λ id. some (ref key id)) (normalize_value external_id)
unfolding build_catalog_scene_ref
parse-build_catalog_scene_ref key external_id = elim (Option-cases (normalize_value external_id)) [
  | inl e ↦ rw (e, build_catalog_scene_ref) refl
  | inr (id, e) ↦
      let (full, (same, solid)) = normalize_value-trimmed external_id id e in
      rw (e, build_catalog_scene_ref) (ap some (parse-built key id full same solid))
]

abbrev IsCanonical : CatalogSceneRef → Type 0
IsCanonical r = (is_empty r.external_id ≡ false) × (trim r.external_id ≡ r.external_id)

ref_of-IsCanonical :
    (provider external_id : Text) (r : CatalogSceneRef)
    → ref_of provider external_id ≡ some r
    → IsCanonical r
unfolding ref_of
ref_of-IsCanonical provider external_id r h = elim (Option-cases (key_of provider)) [
  | inl e ↦ cc (rw (e, ref_of) at h)
  | inr (key, e) ↦ elim (Bool-cases (is_empty (trim external_id))) [
    | inl empty ↦ cc (rw (e, empty, ref_of) at h)
    | inr full ↦
        subst IsCanonical
          (some-injective (ref key (trim external_id)) r (rw (e, full, ref_of) at h))
          (full, trim_idem external_id)
  ]
]

parse_catalog_scene_ref-IsCanonical :
    (value : Option Text) (r : CatalogSceneRef)
    → parse_catalog_scene_ref value ≡ some r
    → IsCanonical r
unfolding parse_catalog_scene_ref
parse_catalog_scene_ref-IsCanonical value r h = elim (Option-cases (normalize_value value)) [
  | inl e ↦ cc (rw (e, parse_catalog_scene_ref) at h)
  | inr (normalized, e) ↦ elim (Option-cases (split_at separator normalized)) [
    | inl lost ↦ cc (rw (e, lost, parse_catalog_scene_ref) at h)
    | inr ((provider, external_id), found) ↦ elim (Bool-cases (is_empty provider)) [
      | inl empty ↦ cc (rw (e, found, empty, parse_catalog_scene_ref) at h)
      | inr full ↦
          ref_of-IsCanonical provider external_id r
            (rw (e, found, full, parse_catalog_scene_ref) at h)
    ]
  ]
]

-- What a text reads as can be built again, and that reference reads the same.
pub build-parse_catalog_scene_ref :
    (value : Option Text) (r : CatalogSceneRef)
    → parse_catalog_scene_ref value ≡ some r
    → Option.map
        (λ s. parse_catalog_scene_ref (some s))
        (build_catalog_scene_ref r.provider_key (some r.external_id))
      ≡ some (some r)
build-parse_catalog_scene_ref value r h =
    let (full, same) = parse_catalog_scene_ref-IsCanonical value r h in
    parse-build_catalog_scene_ref r.provider_key (some r.external_id)
    ∙ rw (normalize_value-solid r.external_id same full) refl
