-- ===== src/Catalog/Selection.antt =====
-- Which catalog provider an instance uses: the selection functions of
-- apps/sp-api/src/providers/catalog/catalog-provider.util.ts, and the calls of
-- catalog-provider.service.ts, with `IntegrationsService.findAll` as a list and `findOne` as a
-- lookup in it, which throws when the type has no row.
use stasharr_portal.Prelude.Dict.{Dict, get, put}
use stasharr_portal.Prelude.Text.{Text, text, text_eq, eq_text, trim, is_empty}
use stasharr_portal.Prelude.{
  ℕ, Bool, true, false, not, ◌&&◌, Option, none, some, List, [], ◌∷◌, if◌then◌else◌, is_some, keep,
}
use mathlib.Core.Option
use stasharr_portal.Prelude.Results.{Result, ok, err, conflict, bad_request, not_found}
use stasharr_portal.Catalog.{
  CatalogProviderKey, stashdb, fansdb, catalog_provider_keys, key_text, same_key,
}
pub mod Pick

pub data IntegrationStatus : Type 0 where
  not_configured configured error : IntegrationStatus

-- A value of the JSON column `config`.
mutual
  pub data Json : Type 0 where
    null : Json
    bool : Bool → Json
    number : ℕ → Json
    string : Text → Json
    array : Items → Json
    object : Fields → Json

  pub data Items : Type 0 where
    no_items : Items
    item : Json → Items → Items

  pub data Fields : Type 0 where
    no_fields : Fields
    field : Text → Json → Fields → Fields

-- A row of `IntegrationConfig`; `none` stands for null and for a property that is not there.
pub record Integration : Type 0 where
  pub type : Text
  pub enabled : Option Bool
  pub status : Option IntegrationStatus
  pub base_url : Option Text
  pub api_key : Option Text
  pub last_healthy_at : Option ℕ
  pub config : Option Json

abbrev selection_key : Text
selection_key = text "selectedForInstanceCatalogProvider"

-- `config[key] === true`
abbrev is_true : Json → Bool
is_true (bool b) = b
is_true _ = false

abbrev true_at : Text → Fields → Bool
true_at key no_fields = false
true_at key (field name value rest) =
    let later = true_at key rest in if text_eq name key then is_true value else later

-- `isCatalogProviderSelected`
unfoldable pub is_catalog_provider_selected : Option Json → Bool
is_catalog_provider_selected (some (object fields)) = true_at selection_key fields
is_catalog_provider_selected _ = false

abbrev pub is_true_flag : Option Bool → Bool
is_true_flag (some b) = b
is_true_flag none = false

abbrev pub is_configured : Option IntegrationStatus → Bool
is_configured (some configured) = true
is_configured _ = false

-- `!!baseUrl?.trim()`
unfoldable pub has_base_url : Option Text → Bool
unfolding trim
has_base_url none = false
has_base_url (some url) = not (is_empty (trim url))

unfoldable pub is_enabled : Option Integration → Bool
is_enabled none = false
is_enabled (some i) = is_true_flag i.enabled

unfoldable pub is_catalog_provider_ready : Option Integration → Bool
unfolding has_base_url
is_catalog_provider_ready none = false
is_catalog_provider_ready (some i) =
    is_true_flag i.enabled
    && is_configured i.status
    && has_base_url i.base_url
    && is_some i.last_healthy_at

-- `new Map` of the integrations by their type: the last one of a type stays.
unfoldable pub by_type : List Integration → Dict Text Integration → Dict Text Integration
by_type [] m = m
by_type (i ∷ integrations) m = by_type integrations (put i.type i m)

abbrev pub Lookup : Type 0
Lookup = CatalogProviderKey → Option Integration

abbrev pub lookup_in : List Integration → Lookup
lookup_in integrations key = get (key_text key) (by_type integrations [])

-- The choice from the candidates: alone, alone enabled, alone ready, or the first.
abbrev pub first : List CatalogProviderKey → Option CatalogProviderKey
first [] = none
first (k ∷ _) = some k

abbrev pub only : List CatalogProviderKey → Option CatalogProviderKey
only (k ∷ []) = some k
only _ = none

abbrev pub or_else :
    Option CatalogProviderKey → Option CatalogProviderKey → Option CatalogProviderKey
or_else none b = b
or_else (some a) b = some a

unfoldable pub pick_catalog_provider_type :
    List CatalogProviderKey → Lookup → Option CatalogProviderKey
pick_catalog_provider_type candidates lookup = or_else (only candidates) (
    or_else (only (keep (λ k. is_enabled (lookup k)) candidates)) (
      or_else (only (keep (λ k. is_catalog_provider_ready (lookup k)) candidates))
        (first candidates)))

-- `isCatalogProviderSelected(integration?.config)`
unfoldable pub is_selected : Option Integration → Bool
unfolding is_catalog_provider_selected
is_selected none = is_catalog_provider_selected none
is_selected (some i) = is_catalog_provider_selected i.config

abbrev pub is_selected_in : Lookup → CatalogProviderKey → Bool
is_selected_in lookup key = is_selected (lookup key)

abbrev pub has_url_in : Lookup → CatalogProviderKey → Bool
has_url_in lookup key = elim (lookup key) [ none ↦ false | some i ↦ has_base_url i.base_url ]

unfoldable pub instance_type : Lookup → Option CatalogProviderKey
unfolding pick_catalog_provider_type is_selected has_base_url
instance_type lookup =
    or_else (pick_catalog_provider_type (keep (is_selected_in lookup) catalog_provider_keys) lookup)
      (pick_catalog_provider_type (keep (has_url_in lookup) catalog_provider_keys) lookup)

unfoldable pub instance_catalog_provider_type : List Integration → Option CatalogProviderKey
unfolding instance_type by_type get put
instance_catalog_provider_type integrations = instance_type (lookup_in integrations)

unfoldable pub configured_type : Lookup → Option CatalogProviderKey
unfolding is_catalog_provider_ready is_enabled
configured_type lookup =
    let ready = keep (λ k. is_catalog_provider_ready (lookup k)) catalog_provider_keys in
    or_else (only (keep (λ k. is_enabled (lookup k)) ready)) (first ready)

unfoldable pub configured_catalog_provider_type : List Integration → Option CatalogProviderKey
unfolding configured_type by_type get put
configured_catalog_provider_type integrations = configured_type (lookup_in integrations)
