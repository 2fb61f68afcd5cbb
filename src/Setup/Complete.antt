-- ===== src/Setup/Complete.antt =====
-- What a complete setup means for the services.
use stasharr_portal.Prelude.Text.{text, eq_text}
use stasharr_portal.Prelude.{
  ◌≡◌, ◌&&◌, List, is_some, refl, sym, ap, ◌∙◌, inl, inr, true, false, none, some, arith,
  Bool-cases, Option-cases,
}
use stasharr_portal.Prelude.Results.{Result-cases}
use stasharr_portal.Catalog.{CatalogProviderKey, same_key_iff}
use stasharr_portal.Catalog.Selection.{has_base_url, Integration, is_catalog_provider_ready}
use stasharr_portal.Catalog.Service.{
  find_one, get_instance_catalog_provider_type, get_configured_catalog_provider_type,
  get_configured_catalog_provider, provider_or_null, provider_or_throw, trimmed_url,
}
use stasharr_portal.Catalog.Service.Agree.{
  value_of, configured_type-found, configured_type-lost, provider_or_throw-value_of,
  has_base_url-trimmed_url,
}
use stasharr_portal.Setup.{has_configured, is_same_provider, get_setup_status}

ready-is_some :
    (key : CatalogProviderKey) (i : Integration)
    → is_catalog_provider_ready (some i) ≡ true
    → is_some (provider_or_null key i) ≡ true
unfolding is_catalog_provider_ready provider_or_null
ready-is_some key i ready = elim (Option-cases (trimmed_url i.base_url)) [
  | inl e ↦
      let no_url : has_base_url i.base_url ≡ false =
        has_base_url-trimmed_url i.base_url ∙ rw e refl in
      ground (arith, no_url, ready)
  | inr (u, e) ↦ rw (e, provider_or_null) (ground (arith, ready))
]

-- The catalog is set up exactly when its service does not throw.
is_same_provider-value_of :
    (integrations : List Integration)
    → is_same_provider
        (get_instance_catalog_provider_type integrations)
        (get_configured_catalog_provider_type integrations)
      ≡ is_some (value_of (get_configured_catalog_provider integrations))
unfolding get_configured_catalog_provider
is_same_provider-value_of integrations =
    elim (Option-cases (get_instance_catalog_provider_type integrations)) [
      | inl e ↦ rw (e, get_configured_catalog_provider) refl
      | inr (key, e) ↦ elim (Result-cases (find_one key integrations)) [
        | inr (x, lost) ↦
            rw
              (
                configured_type-lost integrations key x e lost,
                e,
                lost,
                get_configured_catalog_provider,
              )
              refl
        | inl (i, found) ↦
            let type = configured_type-found integrations key i e found in
            let given = provider_or_throw-value_of key i in
            elim (Bool-cases (is_catalog_provider_ready (some i))) [
              | inl ready ↦
                  let this : get_configured_catalog_provider_type integrations ≡ some key =
                    type ∙ rw ready refl in
                  let provided : value_of (provider_or_throw key i) ≡ provider_or_null key i =
                    sym given ∙ rw ready refl in
                  rw (this, e, found, get_configured_catalog_provider)
                    ((same_key_iff key key).1 refl
                      ∙ sym (ap is_some provided ∙ ready-is_some key i ready))
              | inr unready ↦
                  let this : get_configured_catalog_provider_type integrations ≡ none =
                    type ∙ rw unready refl in
                  let provided : value_of (provider_or_throw key i) ≡ none =
                    sym given ∙ rw unready refl in
                  rw (this, e, found, get_configured_catalog_provider) (sym (ap is_some provided))
            ]
      ]
    ]

-- The setup is complete exactly when Stash and Whisparr are configured and the catalog service
-- gives its provider without an exception.
pub get_setup_status-setup_complete :
    (integrations : List Integration)
    → (get_setup_status integrations).setup_complete ≡ (
        has_configured (text "STASH") integrations
        && is_some (value_of (get_configured_catalog_provider integrations))
        && has_configured (text "WHISPARR") integrations)
unfolding get_setup_status
get_setup_status-setup_complete integrations = rw (is_same_provider-value_of integrations) refl
