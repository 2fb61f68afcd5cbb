-- ===== src/Catalog/Refs/Tests.antt =====
-- Scene references on concrete inputs.
use stasharr_portal.Prelude.Text.{Text, text, text_eq, eq_text, trim, to_lower, includes}
use stasharr_portal.Prelude.{◌≡◌, refl, Option, none, some, List, [], ◌∷◌, any}
use mathlib.Core.Option
use stasharr_portal.Catalog.{stashdb, fansdb, key_of}
use stasharr_portal.Catalog.Refs.{
  normalize_value, resolve_catalog_provider_key, build_catalog_scene_ref, parse_catalog_scene_ref,
  ExternalRef, ref_for, add_ref, normalize_catalog_scene_refs, has_catalog_scene_ref,
  find_catalog_external_id_for_provider,
}
use stasharr_portal.Catalog.Refs.Roundtrip.{ref, parse-build_catalog_scene_ref}
use stasharr_portal.Catalog.Refs.Collect.{
  points, has_catalog_scene_ref-normalize_catalog_scene_refs,
}

refs_run : Unit {0}
unfolding normalize_value resolve_catalog_provider_key build_catalog_scene_ref
    parse_catalog_scene_ref ref_for add_ref normalize_catalog_scene_refs has_catalog_scene_ref
    find_catalog_external_id_for_provider key_of text_eq trim to_lower includes
refs_run = tt

abbrev no_url : Text → Option Text
no_url _ = none

abbrev ids : List ExternalRef
ids =
    record { endpoint = text "https://StashDB.org/graphql"; external_id = text " a|1 " }
    ∷ record { endpoint = text "https://fansdb.cc"; external_id = text "b" }
    ∷ record { endpoint = text "stashdb"; external_id = text "a|1" }
    ∷ record { endpoint = text "elsewhere"; external_id = text "c" }
    ∷ []

collected : normalize_catalog_scene_refs no_url ids ≡ text "STASHDB|a|1" ∷ text "FANSDB|b" ∷ []
unfolding refs_run
collected = refl

found_id :
    find_catalog_external_id_for_provider (normalize_catalog_scene_refs no_url ids) fansdb
    ≡ some (text "b")
unfolding refs_run
found_id = refl

no_id : parse_catalog_scene_ref (some (text "|a")) ≡ none
unfolding refs_run
no_id = refl

parse-build_catalog_scene_ref_example :
    Option.map
      (λ r. parse_catalog_scene_ref (some r))
      (build_catalog_scene_ref fansdb (some (text " x|y ")))
    ≡ some (some (ref fansdb (text "x|y")))
unfolding refs_run
parse-build_catalog_scene_ref_example = parse-build_catalog_scene_ref fansdb (some (text " x|y "))

has_catalog_scene_ref-normalize_example :
    has_catalog_scene_ref (normalize_catalog_scene_refs no_url ids) stashdb (text " a|1")
    ≡ any (points no_url stashdb (text "a|1")) ids
unfolding refs_run
has_catalog_scene_ref-normalize_example =
    has_catalog_scene_ref-normalize_catalog_scene_refs no_url ids stashdb (text " a|1") (text "a|1")
      refl
