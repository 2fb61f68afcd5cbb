-- ===== src/Integrations/Tests.antt =====
-- The integrations over tables in memory, and their theorems there.
use stasharr_portal.Prelude.{◌≡◌, ◌⊎◌, refl, true, false, none, some, List, [], ◌∷◌}
use stasharr_portal.Prelude.Text.{text, text_eq, eq_text, trim}
use stasharr_portal.Prelude.Dict.{get, put, remove}
use stasharr_portal.Prelude.Results.{ok, err, conflict}
use stasharr_portal.Database.{Table}
use stasharr_portal.Database.Memory.{memory, upsert_row, update_rows, delete_rows}
use stasharr_portal.Catalog.{CatalogProviderKey}
use stasharr_portal.Catalog.Selection.{
  instance_catalog_provider_type, is_selected, is_catalog_provider_selected,
}
use stasharr_portal.RuntimeHealth.Records.{ServiceKey, HealthRecord, eq_service, service_eq}
use stasharr_portal.RuntimeHealth.Service.{clear_service}
use stasharr_portal.Integrations.{
  truthy, IntegrationType, eq_type, type_eq, IntegrationRow, UpdateIntegration, reset_payload,
  resolve_persisted_values, normalize_input, merge_normalized_input, has_saved_config,
  runtime_health_invalidated_by_save, connection_details_changed, resolve_saved_health_state,
  other_catalog_provider_types,
}
use stasharr_portal.Integrations.Writes.{
  reset, test_integration, tested, persist_integration, World, upsert, save_integration, save_rows,
  clear_runtime_health, get_instance_catalog_provider_type, assert_catalog_provider_save_allowed,
  assert_catalog_provider_mutation_allowed,
}
use stasharr_portal.Integrations.Provider.{OneProvider}
use stasharr_portal.Integrations.Changes.{
  Change, saving, testing, resetting, changes, changes-OneProvider,
}
use stasharr_portal.Integrations.Chosen.{upsert-chosen}

integrations_run : Unit {0}
unfolding upsert save_integration save_rows clear_runtime_health get_instance_catalog_provider_type
    assert_catalog_provider_save_allowed assert_catalog_provider_mutation_allowed
    instance_catalog_provider_type is_selected is_catalog_provider_selected resolve_persisted_values
    normalize_input merge_normalized_input has_saved_config runtime_health_invalidated_by_save
    connection_details_changed resolve_saved_health_state other_catalog_provider_types type_eq
    text_eq trim get put remove upsert_row update_rows delete_rows clear_service service_eq reset
    test_integration tested persist_integration
integrations_run = tt

abbrev table : Table IntegrationType IntegrationRow
table = memory IntegrationType IntegrationRow

abbrev healths : Table ServiceKey HealthRecord
healths = memory ServiceKey HealthRecord

abbrev fresh : World table healths
fresh = record { rows = []; health = record { rows = []; cache = []; loaded_all = false } }

abbrev dto : UpdateIntegration
dto = record { enabled = none; name = none; base_url = some (text " https://x "); api_key = none }

abbrev edits : List (Change table healths)
edits =
    saving IntegrationType.stashdb dto
    ∷ saving IntegrationType.fansdb dto
    ∷ testing (λ _ _. none) 5 IntegrationType.stash dto
    ∷ resetting IntegrationType.stashdb
    ∷ saving IntegrationType.fansdb dto
    ∷ []

fresh-OneProvider : OneProvider table healths fresh.rows
unfolding OneProvider get
fresh-OneProvider = refl

changes-OneProvider_example : OneProvider table healths (changes table healths edits fresh).rows
changes-OneProvider_example = changes-OneProvider table healths edits fresh fresh-OneProvider

abbrev saved_row : IntegrationRow
saved_row = elim (upsert table healths IntegrationType.fansdb dto fresh).1 [
  | ok row ↦ row
  | err _ ↦ reset_payload
]

saved :
    upsert table healths IntegrationType.fansdb dto fresh
    ≡ ((upsert table healths IntegrationType.fansdb dto fresh).0, ok saved_row)
unfolding integrations_run
saved = refl

-- A provider that is not the one of the instance is refused, until that one is reset.
refused_tests :
    let one : World table healths = (upsert table healths IntegrationType.stashdb dto fresh).0 in
    (upsert table healths IntegrationType.fansdb dto one ≡ (one, err conflict))
    × (get_instance_catalog_provider_type table healths (changes table healths edits fresh).rows
        ≡ some CatalogProviderKey.fansdb)
unfolding integrations_run
refused_tests = (refl, refl)

has_url : truthy saved_row.base_url ≡ true
unfolding integrations_run
has_url = refl

upsert-chosen_example :
    ((get_instance_catalog_provider_type table healths fresh.rows ≡ none)
      ⊎ (get_instance_catalog_provider_type table healths fresh.rows
          ≡ some CatalogProviderKey.fansdb))
    × (get_instance_catalog_provider_type table healths
          (upsert table healths IntegrationType.fansdb dto fresh).0.rows
        ≡ some CatalogProviderKey.fansdb)
upsert-chosen_example =
    upsert-chosen table healths CatalogProviderKey.fansdb dto fresh
      (upsert table healths IntegrationType.fansdb dto fresh).0 saved_row saved has_url
