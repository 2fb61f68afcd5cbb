-- ===== src/Integrations.antt =====
-- The integrations that the admin sets up, apps/sp-api/src/integrations/integrations.service.ts. The
-- state is the table of the integrations with the runtime health that their changes clear; what a
-- test of a connection throws is an argument.
use stasharr_portal.Prelude.{
  ℕ, Bool, true, false, not, ◌&&◌, ◌||◌, Option, none, some, List, [], ◌∷◌, if◌then◌else◌, is_some,
  map, keep, Eq, ◌↔◌, ◌≡◌, arith,
}
use mathlib.Core.Option
use stasharr_portal.Prelude.Text.{Text, text, text_eq, eq_text, trim, is_empty}
use stasharr_portal.Prelude.Results.{Result, ok, err, conflict, not_found}
use stasharr_portal.Database.{Table, upserted}
use stasharr_portal.Catalog.{CatalogProviderKey, catalog_provider_keys, key_text, same_key}
use stasharr_portal.Catalog.Selection.{
  Integration, IntegrationStatus, not_configured, configured, error, Json, object, field, bool,
  no_fields, instance_catalog_provider_type, is_configured,
}
use stasharr_portal.RuntimeHealth.Records.{ServiceKey, HealthRecord, catalog}
use stasharr_portal.RuntimeHealth.Service.{
  Service, clear_service, clear_all_services, record_manual_recovery,
}
use stasharr_portal.Indexing.SyncState.{Thrown, an_error}
pub mod Writes
pub mod Provider
pub mod Changes
pub mod Chosen
mod Tests

pub data IntegrationType : Type 0 where
  stashdb fansdb stash whisparr : IntegrationType

unfoldable pub type_eq : IntegrationType → IntegrationType → Bool
type_eq stashdb stashdb = true
type_eq fansdb fansdb = true
type_eq stash stash = true
type_eq whisparr whisparr = true
type_eq _ _ = false

pub type_eq_iff : (a b : IntegrationType) → (type_eq a b ≡ true) ↔ (a ≡ b)
unfolding type_eq
type_eq_iff a b = ground arith

instance abbrev pub eq_type : Eq IntegrationType
eq_type = record { beq = type_eq; beq_iff = type_eq_iff }

-- `isCatalogProviderIntegrationType`, with the provider that the type is.
abbrev pub provider_of_type : IntegrationType → Option CatalogProviderKey
provider_of_type stashdb = some CatalogProviderKey.stashdb
provider_of_type fansdb = some CatalogProviderKey.fansdb
provider_of_type _ = none

abbrev pub type_of : CatalogProviderKey → IntegrationType
type_of CatalogProviderKey.stashdb = stashdb
type_of CatalogProviderKey.fansdb = fansdb

-- A row of `IntegrationConfig` without its key `type`.
pub record IntegrationRow : Type 0 where
  pub enabled : Bool
  pub status : IntegrationStatus
  pub name : Option Text
  pub base_url : Option Text
  pub api_key : Option Text
  pub config : Option Json
  pub last_healthy_at : Option ℕ
  pub last_error_at : Option ℕ
  pub last_error_message : Option Text

pub record UpdateIntegration : Type 0 where
  pub enabled : Option Bool
  pub name : Option Text
  pub base_url : Option Text
  pub api_key : Option Text

pub record PersistedIntegrationValues : Type 0 where
  pub enabled : Bool
  pub name : Option Text
  pub base_url : Option Text
  pub api_key : Option Text

pub record PersistedIntegrationState : Type 0 where
  pub status : IntegrationStatus
  pub last_healthy_at : Option ℕ
  pub last_error_at : Option ℕ
  pub last_error_message : Option Text

-- `!!value`
abbrev pub truthy : Option Text → Bool
truthy none = false
truthy (some value) = not (is_empty value)

unfoldable pub normalize_input : Option Text → Option Text
normalize_input none = none
normalize_input (some value) = if is_empty (trim value) then none else some (trim value)

-- `existing?.name` and so on.
abbrev pub old_text : (IntegrationRow → Option Text) → Option IntegrationRow → Option Text
old_text f none = none
old_text f (some row) = f row

abbrev or_text : Option Text → Option Text → Option Text
or_text none b = b
or_text (some a) b = some a

unfoldable pub merge_normalized_input : Option Text → Option Text → Option Text
merge_normalized_input old next = or_text (normalize_input next) old

-- `dto.enabled ?? existing?.enabled ?? true`
abbrev pub enabled_or : Option Bool → Option IntegrationRow → Bool
enabled_or (some b) old = b
enabled_or none none = true
enabled_or none (some row) = row.enabled

unfoldable pub resolve_persisted_values :
    IntegrationType → UpdateIntegration → Option IntegrationRow → PersistedIntegrationValues
resolve_persisted_values type dto old = record {
  enabled = is_some (provider_of_type type) || enabled_or dto.enabled old;
  name = merge_normalized_input (old_text (λ r. r.name) old) dto.name;
  base_url = merge_normalized_input (old_text (λ r. r.base_url) old) dto.base_url;
  api_key = merge_normalized_input (old_text (λ r. r.api_key) old) dto.api_key;
}

unfoldable pub has_saved_config : IntegrationType → PersistedIntegrationValues → Bool
has_saved_config type values =
    if is_some (provider_of_type type)
    then truthy values.base_url
    else truthy values.base_url || truthy values.api_key || truthy values.name

abbrev pub same_text : Option Text → Option Text → Bool
same_text none none = true
same_text (some a) (some b) = text_eq a b
same_text _ _ = false

unfoldable pub connection_details_changed :
    Option IntegrationRow → PersistedIntegrationValues → Bool
connection_details_changed old values =
    not (same_text (old_text (λ r. r.base_url) old) values.base_url)
    || not (same_text (old_text (λ r. r.api_key) old) values.api_key)

unfoldable pub runtime_health_invalidated_by_save :
    Option IntegrationRow → PersistedIntegrationValues → Bool → Bool
runtime_health_invalidated_by_save old values saved =
    not saved || connection_details_changed old values

abbrev pub no_health : PersistedIntegrationState
no_health = record {
  status = not_configured;
  last_healthy_at = none;
  last_error_at = none;
  last_error_message = none;
}

abbrev health_of : IntegrationRow → PersistedIntegrationState
health_of row = record {
  status = row.status;
  last_healthy_at = row.last_healthy_at;
  last_error_at = row.last_error_at;
  last_error_message = row.last_error_message;
}

unfoldable pub resolve_saved_health_state :
    Option IntegrationRow → PersistedIntegrationValues → Bool → PersistedIntegrationState
resolve_saved_health_state none values saved = no_health
resolve_saved_health_state (some row) values saved =
    if not saved || connection_details_changed (some row) values then no_health else health_of row

abbrev pub reset_payload : IntegrationRow
reset_payload = record {
  enabled = true;
  status = not_configured;
  name = none;
  base_url = none;
  api_key = none;
  config = none;
  last_healthy_at = none;
  last_error_at = none;
  last_error_message = none;
}

-- `buildCatalogProviderSelectionConfig`
abbrev pub selection_config : Json
selection_config = object (field (text "selectedForInstanceCatalogProvider") (bool true) no_fields)

-- A row with what is saved, and with the selection where there is one.
abbrev pub row_with :
    PersistedIntegrationValues
    → PersistedIntegrationState
    → Option Json
    → IntegrationRow
    → IntegrationRow
row_with values health selection row = record {
  enabled = values.enabled;
  status = health.status;
  name = values.name;
  base_url = values.base_url;
  api_key = values.api_key;
  config = elim selection [ none ↦ row.config | some json ↦ some json ];
  last_healthy_at = health.last_healthy_at;
  last_error_at = health.last_error_at;
  last_error_message = health.last_error_message;
}

unfoldable pub other_catalog_provider_types : CatalogProviderKey → List CatalogProviderKey
other_catalog_provider_types key = keep (λ other. not (same_key other key)) catalog_provider_keys

abbrev pub runtime_health_service_for_integration : IntegrationType → ServiceKey
runtime_health_service_for_integration stash = ServiceKey.stash
runtime_health_service_for_integration whisparr = ServiceKey.whisparr
runtime_health_service_for_integration _ = catalog

abbrev pub chosen_or_conflict :
    CatalogProviderKey → Option CatalogProviderKey → Result (Option CatalogProviderKey)
chosen_or_conflict key none = ok none
chosen_or_conflict key (some other) = if same_key other key then ok (some other) else err conflict

-- `assertCatalogProviderSaveAllowed` after the first check: what is chosen is not cleared.
abbrev pub kept_chosen : Bool → Option CatalogProviderKey → Result (Unit {0})
kept_chosen saved none = ok tt
kept_chosen saved (some _) = if saved then ok tt else err conflict

-- `message.trim().length > 0`
unfoldable pub resolve_error_message : Thrown → Text
resolve_error_message (an_error _ message) =
    if is_empty (trim message) then text "Integration test failed." else message
resolve_error_message _ = text "Integration test failed."
