-- ===== src/Setup/Tests.antt =====
-- The status of two instances.
use stasharr_portal.Prelude.Text.{Text, text, text_eq, eq_text}
use stasharr_portal.Prelude.{◌≡◌, refl, true, false, none, some, List, [], ◌∷◌}
use stasharr_portal.Catalog.Selection.{
  Integration, configured, is_catalog_provider_ready, is_enabled, is_selected,
  instance_catalog_provider_type,
}
use stasharr_portal.Catalog.Service.{
  find_one, get_instance_catalog_provider_type, get_configured_catalog_provider_type,
  get_configured_catalog_provider, provider_or_throw, trimmed_url,
}
use stasharr_portal.Setup.{has_configured, get_setup_status}
use stasharr_portal.Setup.Complete.{get_setup_status-setup_complete}

status_run : Unit {0}
unfolding find_one get_instance_catalog_provider_type get_configured_catalog_provider_type
    instance_catalog_provider_type is_catalog_provider_ready is_enabled is_selected has_configured
    get_setup_status text_eq
status_run = tt

abbrev healthy : Text → Integration
healthy type = record {
  type = type;
  enabled = some true;
  status = some configured;
  base_url = some (text "https://x");
  api_key = none;
  last_healthy_at = some 5;
  config = none;
}

abbrev ready : List Integration
ready = healthy (text "STASHDB") ∷ healthy (text "STASH") ∷ healthy (text "WHISPARR") ∷ []

statuses :
    ((get_setup_status ready).setup_complete ≡ true)
    × ((get_setup_status (healthy (text "STASH") ∷ [])).setup_complete ≡ false)
unfolding status_run
statuses = (refl, refl)

get_setup_status-setup_complete_example : (get_setup_status ready).setup_complete ≡ true
unfolding status_run get_configured_catalog_provider provider_or_throw trimmed_url
get_setup_status-setup_complete_example = get_setup_status-setup_complete ready
