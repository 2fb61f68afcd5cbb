-- ===== src/Integrations/Changes.antt =====
-- Every change of the integrations keeps one catalog provider at most:
-- apps/sp-api/src/integrations/integrations.service.ts.
use stasharr_portal.Prelude.{
  ℕ, Bool, true, false, Option, none, some, List, [], ◌∷◌, ◌≡◌, refl, ap, ◌∙◌, inl, inr, arith,
}
use stasharr_portal.Prelude.Text.{eq_text}
use stasharr_portal.Prelude.Results.{Result-cases}
use stasharr_portal.Database.{Table, upserted}
use stasharr_portal.Indexing.SyncState.{Thrown}
use stasharr_portal.RuntimeHealth.Records.{ServiceKey, HealthRecord, eq_service}
use stasharr_portal.Integrations.{
  IntegrationType, stashdb, fansdb, stash, whisparr, eq_type, type_eq, provider_of_type,
  IntegrationRow, UpdateIntegration, PersistedIntegrationValues, has_saved_config, reset_payload,
  truthy, resolve_persisted_values,
}
use stasharr_portal.Integrations.Writes.{
  World, Probe, save_integration, upsert, tested, persist_integration, test_integration, end_test,
  reset, reset_all, reset_each, clear_runtime_health, clear_if, save_allowed, test_allowed,
}
use stasharr_portal.Integrations.Provider.{OneProvider, save_rows-OneProvider, url_of}

module _ (table : Table IntegrationType IntegrationRow)
    (healths : Table ServiceKey HealthRecord) where
  -- The changes of the admin to the integrations.
  pub data Change : Type 0 where
    saving : IntegrationType → UpdateIntegration → Change
    testing : Probe → ℕ → IntegrationType → UpdateIntegration → Change
    resetting : IntegrationType → Change
    resetting_all : Change

  abbrev pub changed : Change → World table healths → World table healths
  changed (saving type dto) w = (upsert table healths type dto w).0
  changed (testing probe now type dto) w = (test_integration table healths probe now type dto w).0
  changed (resetting type) w = (reset table healths type w).0
  changed resetting_all w = reset_all table healths w

  abbrev pub changes : List Change → World table healths → World table healths
  changes [] w = w
  changes (c ∷ cs) w = changes cs (changed c w)

  clear_if-OneProvider :
      (b : Bool) (type : IntegrationType) (w : World table healths)
      → OneProvider table healths w.rows
      → OneProvider table healths (clear_if table healths b type w).rows
  unfolding clear_runtime_health
  clear_if-OneProvider true type w h = h
  clear_if-OneProvider false type w h = h

  save_integration-OneProvider :
      (type : IntegrationType) (values : PersistedIntegrationValues) (w : World table healths)
      → OneProvider table healths w.rows
      → OneProvider table healths (save_integration table healths type values w).0.rows
  unfolding save_integration
  save_integration-OneProvider type values w h =
      clear_if-OneProvider _ type _ (save_rows-OneProvider table healths type values _ _ _ w.rows h)

  upsert-OneProvider :
      (type : IntegrationType) (dto : UpdateIntegration) (w : World table healths)
      → OneProvider table healths w.rows
      → OneProvider table healths (upsert table healths type dto w).0.rows
  unfolding upsert OneProvider
  upsert-OneProvider type dto w h =
      let values : PersistedIntegrationValues =
        resolve_persisted_values type dto (table.find_unique type w.rows) in
      elim (Result-cases (save_allowed table healths type (has_saved_config type values) w.rows)) [
        | inl (_, e) ↦ rw (e, upsert) (save_integration-OneProvider type values w h)
        | inr (_, e) ↦ rw (e, upsert) h
      ]

  end_test-OneProvider :
      (now : ℕ) (type : IntegrationType) (values : PersistedIntegrationValues)
      (thrown : Option Thrown) (w : World table healths)
      → OneProvider table healths w.rows
      → OneProvider table healths (end_test table healths now type values thrown w).0.rows
  unfolding persist_integration
  end_test-OneProvider now type values none w h =
      save_rows-OneProvider table healths type values _ _ _ w.rows h
  end_test-OneProvider now type values (some thrown) w h =
      clear_if-OneProvider _ type _ (save_rows-OneProvider table healths type values _ _ _ w.rows h)

  test_integration-OneProvider :
      (probe : Probe) (now : ℕ) (type : IntegrationType) (dto : UpdateIntegration)
      (w : World table healths)
      → OneProvider table healths w.rows
      → OneProvider table healths (test_integration table healths probe now type dto w).0.rows
  unfolding test_integration OneProvider
  test_integration-OneProvider probe now type dto w h =
      let values : PersistedIntegrationValues =
        resolve_persisted_values type dto (table.find_unique type w.rows) in
      elim (Result-cases (test_allowed table healths type w.rows)) [
        | inl (_, e) ↦
            rw (e, test_integration)
              (end_test-OneProvider now type values (tested table healths probe type values) w h)
        | inr (_, e) ↦ rw (e, test_integration) h
      ]

  reset_url :
      (old : Option IntegrationRow)
      → truthy (url_of (some (upserted reset_payload (λ _. reset_payload) old))) ≡ false
  reset_url none = refl
  reset_url (some row) = refl

  -- The first reset is of a provider, and the others leave it without a URL.
  reset_both-OneProvider :
      (rows : table.Rows)
      → OneProvider table healths (reset_each table healths (stashdb ∷ fansdb ∷ []) rows)
  unfolding OneProvider type_eq
  reset_both-OneProvider rows =
      let first : table.Rows = table.upsert stashdb reset_payload (λ _. reset_payload) rows in
      ground (
        arith,
        ap (λ r. truthy (url_of r))
              (table.find-upsert fansdb fansdb reset_payload (λ _. reset_payload) first)
            ∙ reset_url (table.find_unique fansdb first),
      )

  reset_other-OneProvider :
      (type : IntegrationType) (rows : table.Rows)
      → provider_of_type type ≡ none
      → OneProvider table healths rows
      → OneProvider table healths (table.upsert type reset_payload (λ _. reset_payload) rows)
  unfolding OneProvider type_eq
  reset_other-OneProvider stashdb rows e h = cc e
  reset_other-OneProvider fansdb rows e h = cc e
  reset_other-OneProvider stash rows e h =
      rw (table.find-upsert stash stashdb reset_payload (λ _. reset_payload) rows)
        (rw (table.find-upsert stash fansdb reset_payload (λ _. reset_payload) rows) h)
  reset_other-OneProvider whisparr rows e h =
      rw (table.find-upsert whisparr stashdb reset_payload (λ _. reset_payload) rows)
        (rw (table.find-upsert whisparr fansdb reset_payload (λ _. reset_payload) rows) h)

  reset-OneProvider :
      (type : IntegrationType) (w : World table healths)
      → OneProvider table healths w.rows
      → OneProvider table healths (reset table healths type w).0.rows
  unfolding reset clear_runtime_health
  reset-OneProvider stashdb w h = reset_both-OneProvider w.rows
  reset-OneProvider fansdb w h = reset_both-OneProvider w.rows
  reset-OneProvider stash w h = reset_other-OneProvider stash w.rows refl h
  reset-OneProvider whisparr w h = reset_other-OneProvider whisparr w.rows refl h

  changed-OneProvider :
      (c : Change) (w : World table healths)
      → OneProvider table healths w.rows
      → OneProvider table healths (changed c w).rows
  unfolding reset_all
  changed-OneProvider (saving type dto) w h = upsert-OneProvider type dto w h
  changed-OneProvider (testing probe now type dto) w h =
      test_integration-OneProvider probe now type dto w h
  changed-OneProvider (resetting type) w h = reset-OneProvider type w h
  changed-OneProvider resetting_all w h =
      let both : table.Rows = reset_each table healths (stashdb ∷ fansdb ∷ []) w.rows in
      reset_other-OneProvider whisparr (table.upsert stash reset_payload (λ _. reset_payload) both)
        refl (reset_other-OneProvider stash both refl (reset_both-OneProvider w.rows))

  -- Whatever the admin saves, tests and resets, with whatever answers, not both catalog providers
  -- have a base URL, if not both have one before.
  pub changes-OneProvider :
      (cs : List Change) (w : World table healths)
      → OneProvider table healths w.rows
      → OneProvider table healths (changes cs w).rows
  changes-OneProvider [] w h = h
  changes-OneProvider (c ∷ cs) w h =
      changes-OneProvider cs (changed c w) (changed-OneProvider c w h)
