-- ===== src/Integrations/Writes.antt =====
-- The calls of apps/sp-api/src/integrations/integrations.service.ts over the tables. A transaction of
-- several writes is the writes one after the other.
use stasharr_portal.Prelude.{
  ℕ, Bool, true, false, Option, none, some, List, [], ◌∷◌, if◌then◌else◌, is_some,
}
use stasharr_portal.Prelude.Text.{text, eq_text}
use stasharr_portal.Prelude.Results.{Result, ok, err}
use stasharr_portal.Database.{Table, upserted}
use stasharr_portal.Catalog.{CatalogProviderKey, catalog_provider_keys, key_text}
use stasharr_portal.Catalog.Selection.{
  Integration, configured, error, Json, instance_catalog_provider_type,
}
use stasharr_portal.RuntimeHealth.Records.{ServiceKey, HealthRecord, eq_service}
use stasharr_portal.RuntimeHealth.Service.{
  Service, clear_service, clear_all_services, record_manual_recovery,
}
use stasharr_portal.Indexing.SyncState.{Thrown, an_error}
use stasharr_portal.Integrations.{
  IntegrationType, stashdb, fansdb, stash, whisparr, eq_type, provider_of_type, type_of,
  IntegrationRow, UpdateIntegration, PersistedIntegrationValues, PersistedIntegrationState,
  resolve_persisted_values, has_saved_config, connection_details_changed,
  runtime_health_invalidated_by_save, no_health, resolve_saved_health_state, reset_payload,
  selection_config, row_with, other_catalog_provider_types, runtime_health_service_for_integration,
  chosen_or_conflict, kept_chosen, resolve_error_message, truthy,
}

-- What `testConnection` of the type's adapter throws, if it throws.
abbrev pub Probe : Type 0
Probe = IntegrationType → PersistedIntegrationValues → Option Thrown

module _ (table : Table IntegrationType IntegrationRow)
    (healths : Table ServiceKey HealthRecord) where
  pub record World : Type 0 where
    pub rows : table.Rows
    pub health : Service healths

  -- The rows of the providers that are there, in the order of the types.
  abbrev pub integration_of : CatalogProviderKey → IntegrationRow → Integration
  integration_of key row = record {
    type = key_text key;
    enabled = some row.enabled;
    status = some row.status;
    base_url = row.base_url;
    api_key = row.api_key;
    last_healthy_at = row.last_healthy_at;
    config = row.config;
  }

  abbrev pub add_if_found :
      CatalogProviderKey → Option IntegrationRow → List Integration → List Integration
  add_if_found key none rest = rest
  add_if_found key (some row) rest = integration_of key row ∷ rest

  abbrev pub found_in : List CatalogProviderKey → table.Rows → List Integration
  found_in [] rows = []
  found_in (key ∷ keys) rows =
      add_if_found key (table.find_unique (type_of key) rows) (found_in keys rows)

  unfoldable pub get_instance_catalog_provider_type : table.Rows → Option CatalogProviderKey
  get_instance_catalog_provider_type rows =
      instance_catalog_provider_type (found_in catalog_provider_keys rows)

  unfoldable pub assert_catalog_provider_mutation_allowed :
      CatalogProviderKey → table.Rows → Result (Option CatalogProviderKey)
  assert_catalog_provider_mutation_allowed key rows =
      chosen_or_conflict key (get_instance_catalog_provider_type rows)

  unfoldable pub assert_catalog_provider_save_allowed :
      CatalogProviderKey → Bool → table.Rows → Result (Unit {0})
  assert_catalog_provider_save_allowed key saved rows =
      elim (assert_catalog_provider_mutation_allowed key rows) [
        | err e ↦ err e
        | ok chosen ↦ kept_chosen saved chosen
      ]

  -- `updateMany` of the other providers with the payload of a reset.
  abbrev pub reset_found : List CatalogProviderKey → table.Rows → table.Rows
  reset_found [] rows = rows
  reset_found (key ∷ keys) rows =
      reset_found keys (table.update_many (type_of key) (λ _. true) (λ _. reset_payload) rows).0

  abbrev pub cleared_for : Option CatalogProviderKey → Bool → table.Rows → table.Rows
  cleared_for (some key) true rows = reset_found (other_catalog_provider_types key) rows
  cleared_for _ _ rows = rows

  -- The `upsert`, after the reset of the other providers where a provider is saved.
  unfoldable pub save_rows :
      IntegrationType
      → Bool
      → IntegrationRow
      → (IntegrationRow → IntegrationRow)
      → table.Rows
      → table.Rows
  save_rows type saved fresh change rows =
      table.upsert type fresh change (cleared_for (provider_of_type type) saved rows)

  unfoldable pub clear_runtime_health : IntegrationType → World → World
  clear_runtime_health type w = record w {
    health = clear_service healths (runtime_health_service_for_integration type) w.health;
  }

  abbrev pub clear_if : Bool → IntegrationType → World → World
  clear_if invalidated type w = if invalidated then clear_runtime_health type w else w

  abbrev pub selection_if : Bool → Option Json
  selection_if b = if b then some selection_config else none

  unfoldable pub save_integration :
      IntegrationType → PersistedIntegrationValues → World → World × Result IntegrationRow
  save_integration type values w =
      let old : Option IntegrationRow = table.find_unique type w.rows in
      let saved : Bool = has_saved_config type values in
      let selection : Option Json = elim (provider_of_type type) [
        | none ↦ none
        | some _ ↦ selection_if saved
      ] in
      let fresh : IntegrationRow = row_with values no_health selection reset_payload in
      let change : IntegrationRow → IntegrationRow =
        row_with values (resolve_saved_health_state old values saved) selection in
      (
        clear_if (runtime_health_invalidated_by_save old values saved) type
            (record w { rows = save_rows type saved fresh change w.rows }),
        ok (upserted fresh change old),
      )

  abbrev pub save_allowed : IntegrationType → Bool → table.Rows → Result (Unit {0})
  save_allowed type saved rows = elim (provider_of_type type) [
    | none ↦ ok tt
    | some key ↦ assert_catalog_provider_save_allowed key saved rows
  ]

  unfoldable pub upsert :
      IntegrationType → UpdateIntegration → World → World × Result IntegrationRow
  upsert type dto w =
      let values : PersistedIntegrationValues =
        resolve_persisted_values type dto (table.find_unique type w.rows) in
      elim (save_allowed type (has_saved_config type values) w.rows) [
        | err e ↦ (w, err e)
        | ok _ ↦ save_integration type values w
      ]

  unfoldable pub persist_integration :
      IntegrationType
      → PersistedIntegrationValues
      → PersistedIntegrationState
      → Option Json
      → World
      → World × IntegrationRow
  persist_integration type values state selection w =
      let fresh : IntegrationRow = row_with values state selection reset_payload in
      (
        record w {
          rows =
              save_rows type (has_saved_config type values) fresh (row_with values state selection)
                w.rows;
        },
        upserted fresh (row_with values state selection) (table.find_unique type w.rows),
      )

  -- What a test of the connection throws; the base URL is required.
  unfoldable pub tested : Probe → IntegrationType → PersistedIntegrationValues → Option Thrown
  tested probe type values =
      if truthy values.base_url
      then probe type values
      else some (an_error none (text "Base URL is required to test this integration."))

  abbrev pub tested_healthy : ℕ → PersistedIntegrationState
  tested_healthy now = record {
    status = configured;
    last_healthy_at = some now;
    last_error_at = none;
    last_error_message = none;
  }

  -- `configChanged || !existing?.lastHealthyAt ? null : existing.lastHealthyAt`
  abbrev pub kept_healthy_at : Bool → Option IntegrationRow → Option ℕ
  kept_healthy_at false (some row) = row.last_healthy_at
  kept_healthy_at _ _ = none

  abbrev pub tested_error : ℕ → Bool → Option IntegrationRow → Thrown → PersistedIntegrationState
  tested_error now changed old thrown = record {
    status = error;
    last_healthy_at = kept_healthy_at changed old;
    last_error_at = some now;
    last_error_message = some (resolve_error_message thrown);
  }

  abbrev pub test_selection : IntegrationType → Option Json
  test_selection type = selection_if (is_some (provider_of_type type))

  abbrev pub end_test :
      ℕ
      → IntegrationType
      → PersistedIntegrationValues
      → Option Thrown
      → World
      → World × IntegrationRow
  end_test now type values none w =
      let (after, row) =
        persist_integration type values (tested_healthy now) (test_selection type) w in
      (
        record after {
          health =
              record_manual_recovery healths (runtime_health_service_for_integration type) now
                after.health;
        },
        row,
      )
  end_test now type values (some thrown) w =
      let old : Option IntegrationRow = table.find_unique type w.rows in
      let changed : Bool = connection_details_changed old values in
      let (after, row) =
        persist_integration type values (tested_error now changed old thrown) (test_selection type)
          w in
      (clear_if changed type after, row)

  abbrev pub test_allowed : IntegrationType → table.Rows → Result (Option CatalogProviderKey)
  test_allowed type rows = elim (provider_of_type type) [
    | none ↦ ok none
    | some key ↦ assert_catalog_provider_mutation_allowed key rows
  ]

  unfoldable pub test_integration :
      Probe → ℕ → IntegrationType → UpdateIntegration → World → World × Result IntegrationRow
  test_integration probe now type dto w = elim (test_allowed type w.rows) [
    | err e ↦ (w, err e)
    | ok _ ↦
        let values : PersistedIntegrationValues =
          resolve_persisted_values type dto (table.find_unique type w.rows) in
        let (after, row) = end_test now type values (tested probe type values) w in (after, ok row)
  ]

  abbrev pub reset_each : List IntegrationType → table.Rows → table.Rows
  reset_each [] rows = rows
  reset_each (type ∷ types) rows =
      reset_each types (table.upsert type reset_payload (λ _. reset_payload) rows)

  abbrev pub reset_types : IntegrationType → List IntegrationType
  reset_types type = elim (provider_of_type type) [
    | none ↦ type ∷ []
    | some _ ↦ stashdb ∷ fansdb ∷ []
  ]

  -- The row that is given back is the one that was written.
  unfoldable pub reset : IntegrationType → World → World × IntegrationRow
  reset type w = (
    clear_runtime_health type (record w { rows = reset_each (reset_types type) w.rows }),
    reset_payload,
  )

  unfoldable pub reset_all : World → World
  reset_all w = record {
    rows = reset_each (stashdb ∷ fansdb ∷ stash ∷ whisparr ∷ []) w.rows;
    health = clear_all_services healths w.health;
  }
