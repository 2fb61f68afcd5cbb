-- ===== src/Catalog/Service/Agree.antt =====
-- The two ways to ask for the configured provider agree.
use stasharr_portal.Prelude.Text.{Text, eq_text}
use stasharr_portal.Prelude.{
  ◌≡◌, refl, ◌∙◌, inl, inr, true, false, Option, none, some, List, arith, if◌then◌else◌,
  Option-cases, is_some, Bool-cases,
}
use stasharr_portal.Prelude.Results.{Result, ok, err, HttpError, Result-cases}
use stasharr_portal.Catalog.{CatalogProviderKey}
use stasharr_portal.Catalog.Selection.{Integration, is_catalog_provider_ready, has_base_url}
use stasharr_portal.Catalog.Service.{
  find_one, get_instance_catalog_provider_type, get_configured_catalog_provider_type, trimmed_url,
  provider_or_null, provider_or_throw, get_configured_catalog_provider_or_null,
  get_configured_catalog_provider,
}

abbrev pub value_of : {A : Type 0} → Result A → Option A
value_of (ok a) = some a
value_of (err _) = none

pub has_base_url-trimmed_url : (url : Option Text) → has_base_url url ≡ is_some (trimmed_url url)
unfolding has_base_url trimmed_url
has_base_url-trimmed_url none = refl
has_base_url-trimmed_url (some url) = ground arith

pub provider_or_throw-value_of :
    (key : CatalogProviderKey) (i : Integration)
    → (if is_catalog_provider_ready (some i) then provider_or_null key i else none)
      ≡ value_of (provider_or_throw key i)
unfolding is_catalog_provider_ready provider_or_null provider_or_throw
provider_or_throw-value_of key i = elim (Option-cases (trimmed_url i.base_url)) [
  | inl e ↦
      let no_url : has_base_url i.base_url ≡ false =
        has_base_url-trimmed_url i.base_url ∙ rw e refl in
      rw (e, provider_or_null, provider_or_throw) (ground (arith, no_url))
  | inr (u, e) ↦
      let url : has_base_url i.base_url ≡ true = has_base_url-trimmed_url i.base_url ∙ rw e refl in
      rw (e, provider_or_null, provider_or_throw) (ground (arith, url))
]

pub configured_type-absent :
    (integrations : List Integration)
    → get_instance_catalog_provider_type integrations ≡ none
    → get_configured_catalog_provider_type integrations ≡ none
unfolding get_configured_catalog_provider_type
configured_type-absent integrations e = rw (e, get_configured_catalog_provider_type) refl

pub configured_type-lost :
    (integrations : List Integration) (key : CatalogProviderKey) (x : HttpError)
    → get_instance_catalog_provider_type integrations ≡ some key
    → find_one key integrations ≡ err x
    → get_configured_catalog_provider_type integrations ≡ none
unfolding get_configured_catalog_provider_type
configured_type-lost integrations key x e lost =
    rw (e, lost, get_configured_catalog_provider_type) refl

pub configured_type-found :
    (integrations : List Integration) (key : CatalogProviderKey) (i : Integration)
    → get_instance_catalog_provider_type integrations ≡ some key
    → find_one key integrations ≡ ok i
    → get_configured_catalog_provider_type integrations
      ≡ (if is_catalog_provider_ready (some i) then some key else none)
unfolding get_configured_catalog_provider_type
configured_type-found integrations key i e found =
    rw (e, found, get_configured_catalog_provider_type) refl

or_null-found :
    (integrations : List Integration) (key : CatalogProviderKey) (i : Integration)
    → find_one key integrations ≡ ok i
    → get_configured_catalog_provider_type integrations
      ≡ (if is_catalog_provider_ready (some i) then some key else none)
    → get_configured_catalog_provider_or_null integrations
      ≡ (if is_catalog_provider_ready (some i) then provider_or_null key i else none)
unfolding get_configured_catalog_provider_or_null
or_null-found integrations key i found type =
    elim (Bool-cases (is_catalog_provider_ready (some i))) [
      | inl ready ↦
          let this : get_configured_catalog_provider_type integrations ≡ some key =
            type ∙ rw ready refl in
          rw (this, found, ready, get_configured_catalog_provider_or_null) refl
      | inr unready ↦
          let this : get_configured_catalog_provider_type integrations ≡ none =
            type ∙ rw unready refl in
          rw (this, unready, get_configured_catalog_provider_or_null) refl
    ]

-- `getConfiguredCatalogProviderOrNull` gives the provider exactly when `getConfiguredCatalogProvider`
-- does not throw, and the same one.
pub or_null_agrees :
    (integrations : List Integration)
    → get_configured_catalog_provider_or_null integrations
      ≡ value_of (get_configured_catalog_provider integrations)
unfolding get_configured_catalog_provider_or_null get_configured_catalog_provider
or_null_agrees integrations =
    elim (Option-cases (get_instance_catalog_provider_type integrations)) [
      | inl e ↦
          let no_type : get_configured_catalog_provider_type integrations ≡ none =
            configured_type-absent integrations e in
          rw (no_type, e, get_configured_catalog_provider_or_null, get_configured_catalog_provider)
            refl
      | inr (key, e) ↦ elim (Result-cases (find_one key integrations)) [
        | inr (x, lost) ↦
            let no_type = configured_type-lost integrations key x e lost in
            rw
              (
                no_type, e, lost, get_configured_catalog_provider_or_null,
                get_configured_catalog_provider,
              )
              refl
        | inl (i, found) ↦
            let type = configured_type-found integrations key i e found in
            rw (e, found, get_configured_catalog_provider)
              (or_null-found integrations key i found type ∙ provider_or_throw-value_of key i)
      ]
    ]
