-- ===== src/Setup.antt =====
-- Whether the instance is set up, apps/sp-api/src/setup/setup.service.ts, over the rows that
-- `IntegrationsService.findAll` gives.
use stasharr_portal.Prelude.Text.{Text, text, text_eq, eq_text}
use stasharr_portal.Prelude.{Bool, false, ◌&&◌, Option, none, some, List, is_some, any}
use mathlib.Core.Option
use stasharr_portal.Catalog.{CatalogProviderKey, same_key}
use stasharr_portal.Catalog.Selection.{Integration, is_configured, is_true_flag}
use stasharr_portal.Catalog.Service.{
  get_instance_catalog_provider_type, get_configured_catalog_provider_type,
}
pub mod Complete
mod Tests

pub record SetupStatus : Type 0 where
  pub setup_complete : Bool
  pub stash : Bool
  pub catalog : Bool
  pub whisparr : Bool
  pub catalog_provider : Option CatalogProviderKey

-- `isConfigured`
unfoldable pub has_configured : Text → List Integration → Bool
unfolding text_eq
has_configured type integrations =
    any
      (λ i.
        text_eq i.type type
        && is_true_flag i.enabled
        && is_configured i.status
        && is_some i.last_healthy_at)
      integrations

-- The selected provider is there and is the configured one.
abbrev pub is_same_provider : Option CatalogProviderKey → Option CatalogProviderKey → Bool
is_same_provider none configured = false
is_same_provider (some key) none = false
is_same_provider (some key) (some other) = same_key other key

unfoldable pub get_setup_status : List Integration → SetupStatus
get_setup_status integrations =
    let provider = get_instance_catalog_provider_type integrations in
    let stash = has_configured (text "STASH") integrations in
    let catalog = is_same_provider provider (get_configured_catalog_provider_type integrations) in
    let whisparr = has_configured (text "WHISPARR") integrations in
    record {
      setup_complete = stash && catalog && whisparr;
      stash = stash;
      catalog = catalog;
      whisparr = whisparr;
      catalog_provider = provider;
    }
