-- ===== src/Catalog.antt =====
-- The catalog providers, apps/sp-api/src/providers/catalog.
use stasharr_portal.Prelude.{
  ◌≡◌, ◌↔◌, Bool, true, false, Option, none, some, List, [], ◌∷◌, if◌then◌else◌, refl,
}
use stasharr_portal.Prelude.Text.{Text, text, text_eq, eq_text}
pub mod Refs
pub mod Selection
pub mod Service

pub data CatalogProviderKey : Type 0 where
  stashdb fansdb : CatalogProviderKey

abbrev pub catalog_provider_keys : List CatalogProviderKey
catalog_provider_keys = stashdb ∷ fansdb ∷ []

-- The string that a key is.
abbrev pub key_text : CatalogProviderKey → Text
key_text stashdb = text "STASHDB"
key_text fansdb = text "FANSDB"

abbrev pub same_key : CatalogProviderKey → CatalogProviderKey → Bool
same_key stashdb stashdb = true
same_key fansdb fansdb = true
same_key _ _ = false

pub same_key_iff : (k j : CatalogProviderKey) → (same_key k j ≡ true) ↔ (k ≡ j)
same_key_iff stashdb stashdb = (λ _. refl, λ _. refl)
same_key_iff stashdb fansdb = (λ h. cc h, λ h. cc h)
same_key_iff fansdb stashdb = (λ h. cc h, λ h. cc h)
same_key_iff fansdb fansdb = (λ _. refl, λ _. refl)

-- `CATALOG_PROVIDER_KEYS.includes`, with the key that the string is.
unfoldable pub key_of : Text → Option CatalogProviderKey
key_of s =
    if text_eq s (text "STASHDB")
    then some stashdb
    else if text_eq s (text "FANSDB")
    then some fansdb
    else none
