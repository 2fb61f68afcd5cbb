-- ===== src/Catalog/Refs/Collect.antt =====
-- The references of a list of ids hold exactly what the list points at.
use stasharr_portal.Prelude.Text.{Text, text_eq, eq_text, text_eq_iff}
use stasharr_portal.Prelude.{
  ◌≡◌, sym, inl, inr, Bool, true, false, ◌&&◌, ◌||◌, Option, none, some, List, [], ◌∷◌, ◌++◌,
  Bool-cases, Option-cases, any, refl, ap, arith,
}
use stasharr_portal.Catalog.{CatalogProviderKey, same_key}
use stasharr_portal.Catalog.Refs.{
  normalize_value, resolve_catalog_provider_key, build_catalog_scene_ref, parse_catalog_scene_ref,
  ExternalRef, ref_for, add_ref, add_found, collect, normalize_catalog_scene_refs, refers,
  has_catalog_scene_ref,
}
use stasharr_portal.Catalog.Refs.Roundtrip.{parse-built, normalize_value-trimmed}

abbrev names : Text → Option Text → Bool
names id none = false
names id (some n) = text_eq n id

abbrev is_for : CatalogProviderKey → Option CatalogProviderKey → Bool
is_for key none = false
is_for key (some k) = same_key k key

-- The id points at the scene `id` of the provider `key`.
abbrev pub points : (Text → Option Text) → CatalogProviderKey → Text → ExternalRef → Bool
points parse_url key id value =
    is_for key (resolve_catalog_provider_key parse_url (some value.endpoint))
    && names id (normalize_value (some value.external_id))

module _ (parse_url : Text → Option Text) (key : CatalogProviderKey) (id : Text) where
  abbrev found : Text → Bool
  found s = refers key id (parse_catalog_scene_ref (some s))

  any-member :
      (r : Text) (refs : List Text)
      → any (text_eq r) refs ≡ true
      → (any found refs || found r) ≡ any found refs
  any-member r [] h = cc h
  any-member r (s ∷ refs) h = elim (Bool-cases (text_eq r s)) [
    | inl e ↦
        let same : found r ≡ found s = ap found ((text_eq_iff r s).0 e) in ground (arith, same)
    | inr e ↦ ground (arith, any-member r refs)
  ]

  any-append :
      (r : Text) (refs : List Text) → any found (refs ++ (r ∷ [])) ≡ (any found refs || found r)
  any-append r [] = ground arith
  any-append r (s ∷ refs) = ground (arith, any-append r refs)

  any-add_ref :
      (r : Text) (refs : List Text) → any found (add_ref r refs) ≡ (any found refs || found r)
  unfolding add_ref
  any-add_ref r refs = elim (Bool-cases (any (text_eq r) refs)) [
    | inl there ↦ rw (there, add_ref) (sym (any-member r refs there))
    | inr fresh ↦ rw (fresh, add_ref) (any-append r refs)
  ]

  abbrev found_in : Option Text → Bool
  found_in none = false
  found_in (some r) = found r

  any-add_found :
      (refs : List Text) (o : Option Text)
      → any found (add_found refs o) ≡ (any found refs || found_in o)
  any-add_found refs none = ground arith
  any-add_found refs (some r) = any-add_ref r refs

  found_in-ref_for :
      (value : ExternalRef) → found_in (ref_for parse_url value) ≡ points parse_url key id value
  unfolding ref_for build_catalog_scene_ref
  found_in-ref_for value =
      elim (Option-cases (resolve_catalog_provider_key parse_url (some value.endpoint))) [
        | inl e ↦ rw (e, ref_for) refl
        | inr (k, e) ↦ elim (Option-cases (normalize_value (some value.external_id))) [
          | inl lost ↦ rw (e, lost, ref_for, build_catalog_scene_ref) (ground arith)
          | inr (n, named) ↦
              let (full, (same, solid)) =
                normalize_value-trimmed (some value.external_id) n named in
              rw (e, named, ref_for, build_catalog_scene_ref)
                (rw (parse-built k n full same solid) refl)
        ]
      ]

  any-collect :
      (refs : List Text) (values : List ExternalRef)
      → any found (collect parse_url refs values)
        ≡ (any found refs || any (points parse_url key id) values)
  any-collect refs [] = ground arith
  any-collect refs (value ∷ values) =
      let step = any-collect (add_found refs (ref_for parse_url value)) values in
      let added = any-add_found refs (ref_for parse_url value) in
      let pointed = found_in-ref_for value in ground (arith, step, added, pointed)

-- The references of a list of ids name a scene of a provider exactly when an id of the list has an
-- endpoint of that provider and, trimmed, that scene's id.
pub has_catalog_scene_ref-normalize_catalog_scene_refs :
    (parse_url : Text → Option Text) (values : List ExternalRef) (key : CatalogProviderKey)
    (external_id id : Text)
    → normalize_value (some external_id) ≡ some id
    → has_catalog_scene_ref (normalize_catalog_scene_refs parse_url values) key external_id
      ≡ any (points parse_url key id) values
unfolding has_catalog_scene_ref normalize_catalog_scene_refs
has_catalog_scene_ref-normalize_catalog_scene_refs parse_url values key external_id id named =
    rw (named, has_catalog_scene_ref) (any-collect parse_url key id [] values)
