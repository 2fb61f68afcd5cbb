-- ===== src/Catalog/Refs.antt =====
-- Scene references `PROVIDER|id`, apps/sp-api/src/providers/catalog/catalog-provider.util.ts. The
-- parser of URLs belongs to the platform: `parse_url` gives the host name and the path of a URL, or
-- nothing where it throws.
use stasharr_portal.Prelude.Text.{Text, text, eq_text, trim, to_lower, includes, is_empty, text_eq}
use stasharr_portal.Prelude.{
  ℕ, Option, none, some, List, [], ◌∷◌, ◌++◌, map, ◌==◌, if◌then◌else◌, any, Bool, false, ◌&&◌,
}
use mathlib.Core.Option
use stasharr_portal.Catalog.{
  CatalogProviderKey, stashdb, fansdb, catalog_provider_keys, key_text, same_key, key_of,
}
pub mod Roundtrip
pub mod Collect
mod Tests

-- A string to search for a provider in.
abbrev provider_patterns : CatalogProviderKey → List Text
provider_patterns stashdb = text "stashdb.org" ∷ text "stashdb" ∷ []
provider_patterns fansdb = text "fansdb.cc" ∷ text "fansdb" ∷ []

-- `normalizeValue`
unfoldable pub normalize_value : Option Text → Option Text
unfolding trim
normalize_value none = none
normalize_value (some value) =
    let trimmed = trim value in if is_empty trimmed then none else some trimmed

haystacks : Option Text → Text → List Text
unfolding to_lower
haystacks none normalized = to_lower normalized ∷ []
haystacks (some host_and_path) normalized = to_lower normalized ∷ to_lower host_and_path ∷ []

first_key : List Text → List CatalogProviderKey → Option CatalogProviderKey
unfolding includes
first_key texts [] = none
first_key texts (key ∷ keys) =
    let rest = first_key texts keys in
    if any (λ pattern. any (includes pattern) texts) (provider_patterns key) then some key else rest

unfoldable pub resolve_catalog_provider_key :
    (Text → Option Text) → Option Text → Option CatalogProviderKey
unfolding haystacks first_key
resolve_catalog_provider_key parse_url value = elim (normalize_value value) [
  | none ↦ none
  | some normalized ↦ first_key (haystacks (parse_url normalized) normalized) catalog_provider_keys
]

abbrev separator : ℕ
separator = b'|'

unfoldable pub build_catalog_scene_ref : CatalogProviderKey → Option Text → Option Text
build_catalog_scene_ref key external_id = elim (normalize_value external_id) [
  | none ↦ none
  | some id ↦ some (key_text key ++ (separator ∷ id))
]

pub record CatalogSceneRef : Type 0 where
  pub provider_key : CatalogProviderKey
  pub external_id : Text

-- `indexOf` of the separator, with what stands before and after it.
abbrev pub split_at : ℕ → Text → Option (Text × Text)
split_at c [] = none
split_at c (x ∷ s) =
    if x == c then some ([], s) else Option.map (λ p. (x ∷ p.0, p.1)) (split_at c s)

ref_of : Text → Text → Option CatalogSceneRef
unfolding key_of trim
ref_of provider external_id =
    let id = trim external_id in
    elim (key_of provider) [
      | none ↦ none
      | some key ↦
          if is_empty id then none else some (record { provider_key = key; external_id = id })
    ]

unfoldable pub parse_catalog_scene_ref : Option Text → Option CatalogSceneRef
unfolding ref_of
parse_catalog_scene_ref value = elim (normalize_value value) [
  | none ↦ none
  | some normalized ↦ elim (split_at separator normalized) [
    | none ↦ none
    | some (provider, external_id) ↦ if is_empty provider then none else ref_of provider external_id
  ]
]

-- An id of a scene at an endpoint.
pub record ExternalRef : Type 0 where
  pub endpoint : Text
  pub external_id : Text

unfoldable pub ref_for : (Text → Option Text) → ExternalRef → Option Text
ref_for parse_url value = elim (resolve_catalog_provider_key parse_url (some value.endpoint)) [
  | none ↦ none
  | some key ↦ build_catalog_scene_ref key (some value.external_id)
]

-- `Set.add`, in the order of insertion.
unfoldable pub add_ref : Text → List Text → List Text
add_ref ref refs = if any (text_eq ref) refs then refs else refs ++ (ref ∷ [])

abbrev pub add_found : List Text → Option Text → List Text
add_found refs none = refs
add_found refs (some ref) = add_ref ref refs

-- The loop, from the references that it has added.
abbrev pub collect : (Text → Option Text) → List Text → List ExternalRef → List Text
collect parse_url refs [] = refs
collect parse_url refs (value ∷ values) =
    collect parse_url (add_found refs (ref_for parse_url value)) values

unfoldable pub normalize_catalog_scene_refs : (Text → Option Text) → List ExternalRef → List Text
normalize_catalog_scene_refs parse_url values = collect parse_url [] values

abbrev pub external_id_for : CatalogProviderKey → Option CatalogSceneRef → Option Text
external_id_for key none = none
external_id_for key (some ref) =
    if same_key ref.provider_key key then some ref.external_id else none

unfoldable pub find_catalog_external_id_for_provider : List Text → CatalogProviderKey → Option Text
find_catalog_external_id_for_provider [] key = none
find_catalog_external_id_for_provider (ref ∷ refs) key =
    let rest = find_catalog_external_id_for_provider refs key in
    elim (external_id_for key (parse_catalog_scene_ref (some ref))) [
      | none ↦ rest
      | some id ↦ some id
    ]

abbrev pub refers : CatalogProviderKey → Text → Option CatalogSceneRef → Bool
refers key id none = false
refers key id (some ref) = same_key ref.provider_key key && text_eq ref.external_id id

unfoldable pub has_catalog_scene_ref : List Text → CatalogProviderKey → Text → Bool
has_catalog_scene_ref refs key external_id = elim (normalize_value (some external_id)) [
  | none ↦ false
  | some id ↦ any (λ ref. refers key id (parse_catalog_scene_ref (some ref))) refs
]
