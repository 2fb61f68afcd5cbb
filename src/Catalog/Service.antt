-- ===== src/Catalog/Service.antt =====
-- The provider of the instance, apps/sp-api/src/providers/catalog/catalog-provider.service.ts, over
-- the rows that `IntegrationsService` reads.
use stasharr_portal.Prelude.Text.{Text, text, text_eq, eq_text, trim, is_empty}
use stasharr_portal.Prelude.{
  not, ◌||◌, Option, none, some, List, [], ◌∷◌, map, if◌then◌else◌, is_some,
}
use mathlib.Core.Option
use stasharr_portal.Prelude.Results.{Result, ok, err, conflict, bad_request, not_found}
use stasharr_portal.Catalog.{CatalogProviderKey, stashdb, fansdb, key_text}
use stasharr_portal.Catalog.Selection.{
  Integration, instance_catalog_provider_type, is_catalog_provider_ready, is_configured,
  is_true_flag,
}
pub mod Agree
pub mod Ties
mod Tests

-- The first row of a type, which is the only one: `type` is unique.
unfoldable pub find_one : CatalogProviderKey → List Integration → Result Integration
unfolding text_eq
find_one key [] = err not_found
find_one key (i ∷ integrations) =
    let rest = find_one key integrations in if text_eq i.type (key_text key) then ok i else rest

-- The properties that are passed on, without `lastHealthyAt`.
abbrev pub passed_on : Integration → Integration
passed_on i = record i { last_healthy_at = none; api_key = none }

unfoldable pub get_instance_catalog_provider_type : List Integration → Option CatalogProviderKey
get_instance_catalog_provider_type integrations =
    instance_catalog_provider_type (map passed_on integrations)

unfoldable pub get_configured_catalog_provider_type : List Integration → Option CatalogProviderKey
get_configured_catalog_provider_type integrations =
    elim (get_instance_catalog_provider_type integrations) [
      | none ↦ none
      | some key ↦ elim (find_one key integrations) [
        | err _ ↦ none
        | ok i ↦ if is_catalog_provider_ready (some i) then some key else none
      ]
    ]

pub record ConfiguredCatalogProvider : Type 0 where
  pub provider_key : CatalogProviderKey
  pub label : Text
  pub base_url : Text
  pub api_key : Option Text

-- `getCatalogProviderLabel`
abbrev pub label_of : CatalogProviderKey → Text
label_of stashdb = text "StashDB"
label_of fansdb = text "FansDB"

-- `baseUrl?.trim()`, an empty one as none.
unfoldable pub trimmed_url : Option Text → Option Text
unfolding trim
trimmed_url none = none
trimmed_url (some url) = let trimmed = trim url in if is_empty trimmed then none else some trimmed

abbrev pub provider_of : CatalogProviderKey → Integration → Text → ConfiguredCatalogProvider
provider_of key i base_url = record {
  provider_key = key;
  label = label_of key;
  base_url = base_url;
  api_key = i.api_key;
}

unfoldable pub provider_or_null :
    CatalogProviderKey → Integration → Option ConfiguredCatalogProvider
provider_or_null key i =
    if not (is_configured i.status) then none else (elim (trimmed_url i.base_url) [
      | none ↦ none
      | some base_url ↦ some (provider_of key i base_url)
    ])

unfoldable pub get_configured_catalog_provider_or_null :
    List Integration → Option ConfiguredCatalogProvider
get_configured_catalog_provider_or_null integrations =
    elim (get_configured_catalog_provider_type integrations) [
      | none ↦ none
      | some key ↦ elim (find_one key integrations) [ err _ ↦ none | ok i ↦ provider_or_null key i ]
    ]

unfoldable pub provider_or_throw :
    CatalogProviderKey → Integration → Result ConfiguredCatalogProvider
provider_or_throw key i =
    if not (is_configured i.status)
      || not (is_true_flag i.enabled)
      || not (is_some i.last_healthy_at)
    then err conflict
    else (elim (trimmed_url i.base_url) [
      | none ↦ err bad_request
      | some base_url ↦ ok (provider_of key i base_url)
    ])

unfoldable pub get_configured_catalog_provider : List Integration → Result ConfiguredCatalogProvider
get_configured_catalog_provider integrations =
    elim (get_instance_catalog_provider_type integrations) [
      | none ↦ err conflict
      | some key ↦ elim (find_one key integrations) [
        | err e ↦ err e
        | ok i ↦ provider_or_throw key i
      ]
    ]
