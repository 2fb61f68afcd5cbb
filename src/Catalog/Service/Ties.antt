-- ===== src/Catalog/Service/Ties.antt =====
-- Two providers that are both selected and enabled: the service passes no health to the choice.
use stasharr_portal.Prelude.Dict.{Dict, get, put, get-put}
use stasharr_portal.Prelude.Text.{Text, eq_text}
use stasharr_portal.Prelude.{
  ◌≡◌, refl, true, false, Option, none, some, List, [], ◌∷◌, map, arith, ap, ◌∙◌,
}
use stasharr_portal.Prelude.Results.{ok}
use stasharr_portal.Catalog.{CatalogProviderKey, stashdb, fansdb, key_text}
use stasharr_portal.Catalog.Selection.{
  is_selected, Integration, is_enabled, is_catalog_provider_ready, is_selected_in, lookup_in,
  by_type, instance_type, instance_catalog_provider_type, pick_catalog_provider_type,
}
use stasharr_portal.Catalog.Service.{
  find_one, passed_on, get_instance_catalog_provider_type, get_configured_catalog_provider_type,
}
use stasharr_portal.Catalog.Service.Agree.{configured_type-found}

abbrev passed : Option Integration → Option Integration
passed none = none
passed (some i) = some (passed_on i)

by_type-passed_on :
    (integrations : List Integration) (m n : Dict Text Integration) (t : Text)
    → ((u : Text) → get u n ≡ passed (get u m))
    → get t (by_type (map passed_on integrations) n) ≡ passed (get t (by_type integrations m))
unfolding by_type
by_type-passed_on [] m n t same = same t
by_type-passed_on (i ∷ integrations) m n t same =
    by_type-passed_on integrations (put i.type i m) (put i.type (passed_on i) n) t (λ u.
      let a = get-put i.type u (passed_on i) n in
      let b = get-put i.type u i m in ground (arith, a, b, same u))

lookup_in-passed_on :
    (integrations : List Integration) (key : CatalogProviderKey)
    → lookup_in (map passed_on integrations) key ≡ passed (lookup_in integrations key)
unfolding get
lookup_in-passed_on integrations key =
    by_type-passed_on integrations [] [] (key_text key) (λ u. refl)

unready-passed : (i : Option Integration) → is_catalog_provider_ready (passed i) ≡ false
unfolding is_catalog_provider_ready
unready-passed none = refl
unready-passed (some i) = ground arith

enabled-passed : (i : Option Integration) → is_enabled (passed i) ≡ is_enabled i
unfolding is_enabled
enabled-passed none = refl
enabled-passed (some i) = refl

abbrev pub IsTie : List Integration → Type 0
IsTie integrations =
    (is_selected_in (lookup_in integrations) stashdb ≡ true)
    × ((is_selected_in (lookup_in integrations) fansdb ≡ true)
        × (is_enabled (lookup_in integrations stashdb)
            ≡ is_enabled (lookup_in integrations fansdb)))

same-selected : (i : Option Integration) → is_selected (passed i) ≡ is_selected i
unfolding is_selected
same-selected none = refl
same-selected (some i) = refl

selected-passed :
    (integrations : List Integration) (key : CatalogProviderKey)
    → is_selected_in (lookup_in (map passed_on integrations)) key
      ≡ is_selected_in (lookup_in integrations) key
selected-passed integrations key =
    ap is_selected (lookup_in-passed_on integrations key)
    ∙ same-selected (lookup_in integrations key)

enabled-mapped :
    (integrations : List Integration) (key : CatalogProviderKey)
    → is_enabled (lookup_in (map passed_on integrations) key)
      ≡ is_enabled (lookup_in integrations key)
enabled-mapped integrations key =
    ap is_enabled (lookup_in-passed_on integrations key)
    ∙ enabled-passed (lookup_in integrations key)

unready-mapped :
    (integrations : List Integration) (key : CatalogProviderKey)
    → is_catalog_provider_ready (lookup_in (map passed_on integrations) key) ≡ false
unready-mapped integrations key =
    ap is_catalog_provider_ready (lookup_in-passed_on integrations key)
    ∙ unready-passed (lookup_in integrations key)

tie-stashdb :
    (integrations : List Integration)
    → IsTie integrations
    → get_instance_catalog_provider_type integrations ≡ some stashdb
unfolding get_instance_catalog_provider_type instance_catalog_provider_type instance_type
    pick_catalog_provider_type
tie-stashdb integrations (s, (f, e)) =
    let selected_s = selected-passed integrations stashdb ∙ s in
    let selected_f = selected-passed integrations fansdb ∙ f in
    let enabled_s = enabled-mapped integrations stashdb in
    let enabled_f = enabled-mapped integrations fansdb in
    let unready_s = unready-mapped integrations stashdb in
    let unready_f = unready-mapped integrations fansdb in
    ground (arith, selected_s, selected_f, enabled_s, enabled_f, unready_s, unready_f, e)

-- With both providers selected and both enabled, or neither, the service chooses StashDB; where
-- StashDB is not ready it reports no configured provider, though FansDB may be ready.
pub tie-not_configured :
    (integrations : List Integration) (i : Integration)
    → IsTie integrations
    → find_one stashdb integrations ≡ ok i
    → is_catalog_provider_ready (some i) ≡ false
    → (get_instance_catalog_provider_type integrations ≡ some stashdb)
      × (get_configured_catalog_provider_type integrations ≡ none)
tie-not_configured integrations i tie found unready =
    let chosen = tie-stashdb integrations tie in
    (chosen, configured_type-found integrations stashdb i chosen found ∙ rw unready refl)
