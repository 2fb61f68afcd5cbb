-- ===== src/Catalog/Selection/Pick.antt =====
-- What the selection of a provider prefers.
use stasharr_portal.Prelude.Text.{eq_text}
use stasharr_portal.Prelude.{
  ◌≡◌, Bool, true, false, not, ◌&&◌, ◌||◌, Option, none, some, arith, if◌then◌else◌, is_some, any,
}
use stasharr_portal.Catalog.{CatalogProviderKey, stashdb, fansdb, catalog_provider_keys, same_key}
use stasharr_portal.Catalog.Selection.{
  Lookup, Integration, is_enabled, is_catalog_provider_ready, pick_catalog_provider_type,
  is_selected_in, has_url_in, instance_type, configured_type,
}

-- A provider that is ready is enabled.
ready-enabled : (i : Option Integration) → is_catalog_provider_ready i ≡ true → is_enabled i ≡ true
unfolding is_catalog_provider_ready is_enabled
ready-enabled none h = h
ready-enabled (some i) h = ground arith

-- The configured provider is StashDB when that is ready, else FansDB when that is, else none.
pub configured_type_lem :
    (lookup : Lookup)
    → configured_type lookup ≡ (
        if is_catalog_provider_ready (lookup stashdb)
        then some stashdb
        else if is_catalog_provider_ready (lookup fansdb)
        then some fansdb
        else none)
unfolding configured_type
configured_type_lem lookup =
    let s = ready-enabled (lookup stashdb) in
    let f = ready-enabled (lookup fansdb) in ground (arith, s, f)

-- A provider that is a candidate for the instance: it is selected, or none is and it has a URL.
abbrev pub is_candidate : Lookup → CatalogProviderKey → Bool
is_candidate lookup key =
    is_selected_in lookup key
    || (not (any (is_selected_in lookup) catalog_provider_keys) && has_url_in lookup key)

abbrev pub is_chosen : CatalogProviderKey → Option CatalogProviderKey → Bool
is_chosen key none = false
is_chosen key (some k) = same_key k key

-- FansDB is chosen for the instance exactly when it is a candidate and StashDB is not, or it alone
-- is enabled, or it alone is ready.
pub instance_type-fansdb :
    (lookup : Lookup)
    → is_chosen fansdb (instance_type lookup) ≡ (
        is_candidate lookup fansdb
        && (not (is_candidate lookup stashdb)
            || (is_enabled (lookup fansdb) && not (is_enabled (lookup stashdb)))
            || (is_catalog_provider_ready (lookup fansdb)
                && not (is_catalog_provider_ready (lookup stashdb)))))
unfolding instance_type pick_catalog_provider_type
instance_type-fansdb lookup =
    let s = ready-enabled (lookup stashdb) in
    let f = ready-enabled (lookup fansdb) in ground (arith, s, f)

-- A provider is chosen exactly when there is a candidate: one that is selected or, where none is,
-- one that has a URL.
pub instance_type-is_some :
    (lookup : Lookup)
    → is_some (instance_type lookup) ≡ any (is_candidate lookup) catalog_provider_keys
unfolding instance_type pick_catalog_provider_type
instance_type-is_some lookup = ground arith
