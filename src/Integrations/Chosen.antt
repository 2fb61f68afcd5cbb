-- ===== src/Integrations/Chosen.antt =====
-- What the instance uses once a provider is saved: apps/sp-api/src/integrations/integrations.service.ts with
-- apps/sp-api/src/providers/catalog/catalog-provider.util.ts.
use stasharr_portal.Prelude.Results.{Result, ok, err, Result-cases}
use stasharr_portal.Prelude.{
  true, List, [], Option, none, some, ◌≡◌, refl, ◌∙◌, Bool, false, sym, ap, ◌⊎◌, inl, inr,
}
use stasharr_portal.Prelude.Text.{text_eq, trim, eq_text, Text}
use stasharr_portal.Database.{Table, upserted, updated}
use stasharr_portal.Catalog.{CatalogProviderKey}
use stasharr_portal.Catalog.Selection.{
  instance_catalog_provider_type, is_selected, is_catalog_provider_selected, Integration, Json,
}
use stasharr_portal.RuntimeHealth.Records.{ServiceKey, HealthRecord, eq_service}
use stasharr_portal.Integrations.{
  IntegrationType, eq_type, type_of, IntegrationRow, PersistedIntegrationValues,
  PersistedIntegrationState, reset_payload, row_with, selection_config, chosen_or_conflict,
  kept_chosen, has_saved_config, truthy, no_health, resolve_saved_health_state, UpdateIntegration,
  resolve_persisted_values,
}
use stasharr_portal.Integrations.Writes.{
  save_rows, get_instance_catalog_provider_type, add_if_found, clear_runtime_health, World,
  save_integration, clear_if, assert_catalog_provider_save_allowed,
  assert_catalog_provider_mutation_allowed, upsert, save_allowed,
}
use stasharr_portal.Integrations.Provider.{other, save_rows-own, save_rows-other}

module _ (table : Table IntegrationType IntegrationRow)
    (healths : Table ServiceKey HealthRecord) where
  -- The rows of a provider and of the other one, in the order of the types.
  abbrev in_order :
      CatalogProviderKey → Option IntegrationRow → Option IntegrationRow → List Integration
  in_order CatalogProviderKey.stashdb own rest =
      add_if_found table healths CatalogProviderKey.stashdb own
        (add_if_found table healths CatalogProviderKey.fansdb rest [])
  in_order CatalogProviderKey.fansdb own rest =
      add_if_found table healths CatalogProviderKey.stashdb rest
        (add_if_found table healths CatalogProviderKey.fansdb own [])

  -- The selected one is chosen over one that was reset.
  in_order-chosen :
      (key : CatalogProviderKey) (row : IntegrationRow) (old : Option IntegrationRow)
      → row.config ≡ some selection_config
      → instance_catalog_provider_type
          (in_order key (some row) (updated (λ _. true) (λ _. reset_payload) old))
        ≡ some key
  unfolding instance_catalog_provider_type is_selected is_catalog_provider_selected text_eq trim
  in_order-chosen CatalogProviderKey.stashdb row none c = rw c refl
  in_order-chosen CatalogProviderKey.stashdb row (some old) c = rw c refl
  in_order-chosen CatalogProviderKey.fansdb row none c = rw c refl
  in_order-chosen CatalogProviderKey.fansdb row (some old) c = rw c refl

  found-in_order :
      (key : CatalogProviderKey) (rows : table.Rows)
      → get_instance_catalog_provider_type table healths rows
        ≡ instance_catalog_provider_type (
            in_order key
              (table.find_unique (type_of key) rows)
              (table.find_unique (type_of (other key)) rows))
  unfolding get_instance_catalog_provider_type
  found-in_order CatalogProviderKey.stashdb rows = refl
  found-in_order CatalogProviderKey.fansdb rows = refl

  selected_row :
      (values : PersistedIntegrationValues) (s t : PersistedIntegrationState)
      (old : Option IntegrationRow)
      → (upserted
          (row_with values s (some selection_config) reset_payload)
          (row_with values t (some selection_config))
          old).config
        ≡ some selection_config
  selected_row values s t none = refl
  selected_row values s t (some row) = refl

  save_rows-chosen :
      (key : CatalogProviderKey) (values : PersistedIntegrationValues)
      (s t : PersistedIntegrationState) (rows : table.Rows)
      → get_instance_catalog_provider_type table healths (
          save_rows table healths
            (type_of key)
            true
            (row_with values s (some selection_config) reset_payload)
            (row_with values t (some selection_config))
            rows)
        ≡ some key
  save_rows-chosen key values s t rows =
      let fresh : IntegrationRow = row_with values s (some selection_config) reset_payload in
      let change : IntegrationRow → IntegrationRow = row_with values t (some selection_config) in
      found-in_order key (save_rows table healths (type_of key) true fresh change rows)
      ∙ rw
          (
            save_rows-own table healths key true fresh change rows,
            save_rows-other table healths key fresh change rows,
          )
          (in_order-chosen key (upserted fresh change (table.find_unique (type_of key) rows))
            (table.find_unique (type_of (other key)) rows)
            (selected_row values s t (table.find_unique (type_of key) rows)))

  clear_if-rows :
      (b : Bool) (type : IntegrationType) (w : World table healths)
      → (clear_if table healths b type w).rows ≡ w.rows
  unfolding clear_runtime_health
  clear_if-rows true type w = refl
  clear_if-rows false type w = refl

  saved_provider :
      (key : CatalogProviderKey) (values : PersistedIntegrationValues)
      → has_saved_config (type_of key) values ≡ truthy values.base_url
  unfolding has_saved_config
  saved_provider CatalogProviderKey.stashdb values = refl
  saved_provider CatalogProviderKey.fansdb values = refl

  abbrev instance_after : World table healths × Result IntegrationRow → Option CatalogProviderKey
  instance_after p = get_instance_catalog_provider_type table healths p.0.rows

  save_integration-chosen :
      (key : CatalogProviderKey) (values : PersistedIntegrationValues) (w : World table healths)
      → has_saved_config (type_of key) values ≡ true
      → instance_after (save_integration table healths (type_of key) values w) ≡ some key
  unfolding save_integration
  save_integration-chosen CatalogProviderKey.stashdb values w e = rw e (
      rw (clear_if-rows _ IntegrationType.stashdb _) (
        save_rows-chosen CatalogProviderKey.stashdb values no_health
          (resolve_saved_health_state (table.find_unique IntegrationType.stashdb w.rows) values
            true)
          w.rows))
  save_integration-chosen CatalogProviderKey.fansdb values w e = rw e (
      rw (clear_if-rows _ IntegrationType.fansdb _) (
        save_rows-chosen CatalogProviderKey.fansdb values no_health
          (resolve_saved_health_state (table.find_unique IntegrationType.fansdb w.rows) values true)
          w.rows))

  abbrev url_given : World table healths × Result IntegrationRow → Option Text
  url_given (w, ok row) = row.base_url
  url_given (w, err e) = none

  upserted-url :
      (values : PersistedIntegrationValues) (s t : PersistedIntegrationState)
      (selection : Option Json) (old : Option IntegrationRow)
      → (upserted
          (row_with values s selection reset_payload)
          (row_with values t selection)
          old).base_url
        ≡ values.base_url
  upserted-url values s t selection none = refl
  upserted-url values s t selection (some row) = refl

  -- The row that is given back has the URL of the values.
  save_integration-url :
      (type : IntegrationType) (values : PersistedIntegrationValues) (w after : World table healths)
      (row : IntegrationRow)
      → save_integration table healths type values w ≡ (after, ok row)
      → values.base_url ≡ row.base_url
  unfolding save_integration
  save_integration-url type values w after row h =
      sym (upserted-url values no_health _ _ (table.find_unique type w.rows)) ∙ ap url_given h

  -- The provider was chosen before, or none was.
  kept_chosen-free :
      (key : CatalogProviderKey) (chosen : Option CatalogProviderKey) (saved : Bool) (u : Unit {0})
      → ◌≡◌ {A = Result (Unit {0})}
          (elim (chosen_or_conflict key chosen) [ err e ↦ err e | ok c ↦ kept_chosen saved c ])
          (ok u)
      → (chosen ≡ none) ⊎ (chosen ≡ some key)
  kept_chosen-free key none saved u h = inl refl
  kept_chosen-free CatalogProviderKey.stashdb (some CatalogProviderKey.stashdb) saved u h = inr refl
  kept_chosen-free CatalogProviderKey.stashdb (some CatalogProviderKey.fansdb) saved u h = cc h
  kept_chosen-free CatalogProviderKey.fansdb (some CatalogProviderKey.stashdb) saved u h = cc h
  kept_chosen-free CatalogProviderKey.fansdb (some CatalogProviderKey.fansdb) saved u h = inr refl

  save_allowed-free :
      (key : CatalogProviderKey) (saved : Bool) (rows : table.Rows) (u : Unit {0})
      → save_allowed table healths (type_of key) saved rows ≡ ok u
      → (get_instance_catalog_provider_type table healths rows ≡ none)
        ⊎ (get_instance_catalog_provider_type table healths rows ≡ some key)
  unfolding assert_catalog_provider_save_allowed assert_catalog_provider_mutation_allowed
  save_allowed-free CatalogProviderKey.stashdb saved rows u h =
      kept_chosen-free CatalogProviderKey.stashdb
        (get_instance_catalog_provider_type table healths rows) saved u h
  save_allowed-free CatalogProviderKey.fansdb saved rows u h =
      kept_chosen-free CatalogProviderKey.fansdb
        (get_instance_catalog_provider_type table healths rows) saved u h

-- Where a catalog provider is saved with a base URL, the instance used no provider or that one
-- before, and it uses that one after.
pub upsert-chosen :
    (table : Table IntegrationType IntegrationRow) (healths : Table ServiceKey HealthRecord)
    (key : CatalogProviderKey) (dto : UpdateIntegration) (w after : World table healths)
    (row : IntegrationRow)
    → upsert table healths (type_of key) dto w ≡ (after, ok row)
    → truthy row.base_url ≡ true
    → ((get_instance_catalog_provider_type table healths w.rows ≡ none)
        ⊎ (get_instance_catalog_provider_type table healths w.rows ≡ some key))
      × (get_instance_catalog_provider_type table healths after.rows ≡ some key)
unfolding upsert
upsert-chosen table healths key dto w after row h url =
    let values : PersistedIntegrationValues =
      resolve_persisted_values (type_of key) dto (table.find_unique (type_of key) w.rows) in
    elim (Result-cases
      (save_allowed table healths (type_of key) (has_saved_config (type_of key) values) w.rows)) [
        | inr (_, e) ↦ cc (rw (e, upsert) at h)
        | inl (u, e) ↦
            let done : save_integration table healths (type_of key) values w ≡ (after, ok row) =
              rw (e, upsert) at h in
            (
              save_allowed-free table healths key (has_saved_config (type_of key) values) w.rows u
                  e,
              sym (ap (instance_after table healths) done)
                  ∙ save_integration-chosen table healths key values w (
                      saved_provider table healths key values
                      ∙ (ap truthy (
                            save_integration-url table healths (type_of key) values w after row
                              done)
                          ∙ url)),
            )
      ]
