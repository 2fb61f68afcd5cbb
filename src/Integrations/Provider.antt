-- ===== src/Integrations/Provider.antt =====
-- One catalog provider at a time: apps/sp-api/src/integrations/integrations.service.ts.
use stasharr_portal.Prelude.{Bool, true, false, ◌&&◌, Option, none, some, ◌≡◌, refl, ap, ◌∙◌, arith}
use stasharr_portal.Prelude.Text.{Text, eq_text}
use stasharr_portal.Database.{Table, upserted, updated}
use stasharr_portal.Catalog.{CatalogProviderKey}
use stasharr_portal.Catalog.Selection.{Json}
use stasharr_portal.RuntimeHealth.Records.{ServiceKey, HealthRecord, eq_service}
use stasharr_portal.Integrations.{
  IntegrationType, stashdb, fansdb, stash, whisparr, eq_type, type_eq, type_of, IntegrationRow,
  PersistedIntegrationValues, PersistedIntegrationState, has_saved_config, reset_payload, row_with,
  other_catalog_provider_types, old_text, truthy,
}
use stasharr_portal.Integrations.Writes.{save_rows}

abbrev pub other : CatalogProviderKey → CatalogProviderKey
other CatalogProviderKey.stashdb = CatalogProviderKey.fansdb
other CatalogProviderKey.fansdb = CatalogProviderKey.stashdb

abbrev pub url_of : Option IntegrationRow → Option Text
url_of row = old_text (λ r. r.base_url) row

module _ (table : Table IntegrationType IntegrationRow)
    (healths : Table ServiceKey HealthRecord) where
  abbrev pub has_url : IntegrationType → table.Rows → Bool
  has_url type rows = truthy (url_of (table.find_unique type rows))

  -- Not both providers have a base URL.
  unfoldable pub OneProvider : table.Rows → Type 0
  OneProvider rows = (has_url stashdb rows && has_url fansdb rows) ≡ false

  no_url :
      (row : Option IntegrationRow)
      → truthy (url_of (updated (λ _. true) (λ _. reset_payload) row)) ≡ false
  no_url none = refl
  no_url (some row) = refl

  written_url :
      (values : PersistedIntegrationValues) (s t : PersistedIntegrationState)
      (selection : Option Json) (old : Option IntegrationRow)
      → truthy (
          url_of (
            some (
              upserted
                (row_with values s selection reset_payload)
                (row_with values t selection)
                old)))
        ≡ truthy values.base_url
  written_url values s t selection none = refl
  written_url values s t selection (some row) = refl

  pub save_rows-own :
      (key : CatalogProviderKey) (saved : Bool) (fresh : IntegrationRow)
      (change : IntegrationRow → IntegrationRow) (rows : table.Rows)
      → table.find_unique
          (type_of key)
          (save_rows table healths (type_of key) saved fresh change rows)
        ≡ some (upserted fresh change (table.find_unique (type_of key) rows))
  unfolding save_rows other_catalog_provider_types type_eq
  save_rows-own CatalogProviderKey.stashdb true fresh change rows =
      table.find-upsert stashdb stashdb fresh change
        (table.update_many fansdb (λ _. true) (λ _. reset_payload) rows).0
      ∙ ap (λ old. some (upserted fresh change old))
          (table.find-update_many fansdb stashdb (λ _. true) (λ _. reset_payload) rows)
  save_rows-own CatalogProviderKey.fansdb true fresh change rows =
      table.find-upsert fansdb fansdb fresh change
        (table.update_many stashdb (λ _. true) (λ _. reset_payload) rows).0
      ∙ ap (λ old. some (upserted fresh change old))
          (table.find-update_many stashdb fansdb (λ _. true) (λ _. reset_payload) rows)
  save_rows-own CatalogProviderKey.stashdb false fresh change rows =
      table.find-upsert stashdb stashdb fresh change rows
  save_rows-own CatalogProviderKey.fansdb false fresh change rows =
      table.find-upsert fansdb fansdb fresh change rows

  pub save_rows-other :
      (key : CatalogProviderKey) (fresh : IntegrationRow) (change : IntegrationRow → IntegrationRow)
      (rows : table.Rows)
      → table.find_unique
          (type_of (other key))
          (save_rows table healths (type_of key) true fresh change rows)
        ≡ updated (λ _. true) (λ _. reset_payload) (table.find_unique (type_of (other key)) rows)
  unfolding save_rows other_catalog_provider_types type_eq
  save_rows-other CatalogProviderKey.stashdb fresh change rows =
      table.find-upsert stashdb fansdb fresh change
        (table.update_many fansdb (λ _. true) (λ _. reset_payload) rows).0
      ∙ table.find-update_many fansdb fansdb (λ _. true) (λ _. reset_payload) rows
  save_rows-other CatalogProviderKey.fansdb fresh change rows =
      table.find-upsert fansdb stashdb fresh change
        (table.update_many stashdb (λ _. true) (λ _. reset_payload) rows).0
      ∙ table.find-update_many stashdb stashdb (λ _. true) (λ _. reset_payload) rows

  -- A provider that is saved is alone with its URL, or has none.
  save_rows-alone :
      (key : CatalogProviderKey) (values : PersistedIntegrationValues)
      (s t : PersistedIntegrationState) (selection : Option Json) (saved : Bool) (rows : table.Rows)
      → truthy values.base_url ≡ saved
      → (has_url (type_of key) (
            save_rows table healths
              (type_of key)
              saved
              (row_with values s selection reset_payload)
              (row_with values t selection)
              rows)
          && has_url (type_of (other key)) (
              save_rows table healths
                (type_of key)
                saved
                (row_with values s selection reset_payload)
                (row_with values t selection)
                rows))
        ≡ false
  save_rows-alone key values s t selection true rows e = ground (
    arith,
    ap (λ r. truthy (url_of r))
          (save_rows-other key (row_with values s selection reset_payload)
            (row_with values t selection) rows)
        ∙ no_url (table.find_unique (type_of (other key)) rows),
  )
  save_rows-alone key values s t selection false rows e = ground (
    arith,
    ap (λ r. truthy (url_of r))
          (save_rows-own key false (row_with values s selection reset_payload)
            (row_with values t selection) rows)
        ∙ (written_url values s t selection (table.find_unique (type_of key) rows) ∙ e),
  )

  pub save_rows-OneProvider :
      (type : IntegrationType) (values : PersistedIntegrationValues)
      (s t : PersistedIntegrationState) (selection : Option Json) (rows : table.Rows)
      → OneProvider rows
      → OneProvider (
          save_rows table healths type
            (has_saved_config type values)
            (row_with values s selection reset_payload)
            (row_with values t selection)
            rows)
  unfolding OneProvider save_rows has_saved_config other_catalog_provider_types type_eq
  save_rows-OneProvider stashdb values s t selection rows h =
      save_rows-alone CatalogProviderKey.stashdb values s t selection (truthy values.base_url) rows
        refl
  save_rows-OneProvider fansdb values s t selection rows h = ground (
    arith,
    save_rows-alone CatalogProviderKey.fansdb values s t selection (truthy values.base_url) rows
        refl,
  )
  save_rows-OneProvider stash values s t selection rows h =
      rw
        (table.find-upsert stash stashdb (row_with values s selection reset_payload)
          (row_with values t selection) rows)
        (rw
          (table.find-upsert stash fansdb (row_with values s selection reset_payload)
            (row_with values t selection) rows)
          h)
  save_rows-OneProvider whisparr values s t selection rows h =
      rw
        (table.find-upsert whisparr stashdb (row_with values s selection reset_payload)
          (row_with values t selection) rows)
        (rw
          (table.find-upsert whisparr fansdb (row_with values s selection reset_payload)
            (row_with values t selection) rows)
          h)
