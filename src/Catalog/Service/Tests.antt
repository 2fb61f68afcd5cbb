-- ===== src/Catalog/Service/Tests.antt =====
-- The choice of a provider on concrete rows.
use stasharr_portal.Prelude.Text.{text, text_eq, eq_text}
use stasharr_portal.Prelude.{ℕ, ◌≡◌, refl, true, Option, none, some, List, [], ◌∷◌, is_some, any}
use stasharr_portal.Catalog.{CatalogProviderKey, stashdb, fansdb, catalog_provider_keys, key_text}
use stasharr_portal.Catalog.Selection.{
  Integration, configured, object, field, bool, no_fields, is_enabled, is_selected, lookup_in,
  instance_type, configured_type, instance_catalog_provider_type,
}
use stasharr_portal.Catalog.Selection.Pick.{instance_type-is_some, is_candidate}
use stasharr_portal.Catalog.Service.{
  find_one, get_instance_catalog_provider_type, get_configured_catalog_provider_type,
  get_configured_catalog_provider_or_null, get_configured_catalog_provider, provider_or_null,
  provider_or_throw, trimmed_url,
}
use stasharr_portal.Catalog.Service.Agree.{value_of, or_null_agrees}
use stasharr_portal.Catalog.Service.Ties.{tie-not_configured}

catalog_run : Unit {0}
unfolding find_one get_instance_catalog_provider_type get_configured_catalog_provider_type
    get_configured_catalog_provider_or_null get_configured_catalog_provider provider_or_null
    provider_or_throw trimmed_url instance_catalog_provider_type configured_type is_enabled
    is_selected text_eq
catalog_run = tt

abbrev row : CatalogProviderKey → Option ℕ → Integration
row key healthy = record {
  type = key_text key;
  enabled = some true;
  status = some configured;
  base_url = some (text " https://x ");
  api_key = none;
  last_healthy_at = healthy;
  config = some (object (field (text "selectedForInstanceCatalogProvider") (bool true) no_fields));
}

abbrev tied : List Integration
tied = row fansdb (some 5) ∷ row stashdb none ∷ []

tie-not_configured_example :
    (get_instance_catalog_provider_type tied ≡ some stashdb)
    × (get_configured_catalog_provider_type tied ≡ none)
unfolding catalog_run
tie-not_configured_example =
    tie-not_configured tied (row stashdb none) (refl, (refl, refl)) refl refl

instance_type-is_some_example :
    is_some (instance_type (lookup_in tied))
    ≡ any (is_candidate (lookup_in tied)) catalog_provider_keys
instance_type-is_some_example = instance_type-is_some (lookup_in tied)

or_null_agrees_example :
    get_configured_catalog_provider_or_null (row fansdb (some 5) ∷ [])
    ≡ value_of (get_configured_catalog_provider (row fansdb (some 5) ∷ []))
or_null_agrees_example = or_null_agrees (row fansdb (some 5) ∷ [])
