-- ===== src/HybridScenes.antt =====
-- The hybrid scene feed, apps/sp-api/src/hybrid-scenes/hybrid-scenes.service.ts. The adapter of
-- StashDB is the parameter `get_scenes_by_sort`, from a page and its size to the scenes and the
-- total, and the adapter of Stash is `find_scenes`, the number of scenes that it finds.
use stasharr_portal.Prelude.{
  ℕ, zero, suc, ◌+◌, ◌-◌, ◌*◌, min, max, Bool, true, false, not, ◌&&◌, ◌||◌, Option, none, some,
  List, [], ◌∷◌, ◌++◌, ltb, leb, if◌then◌else◌, length, take, drop, ◌==◌,
}
use stasharr_portal.Prelude.Text.{Text, text_eq, trim, is_empty, eq_text}
use stasharr_portal.Catalog.{CatalogProviderKey}
pub mod Cover
pub mod Pages
pub mod Feed
mod Tests

pub data LibraryAvailability : Type 0 where
  any_availability in_library missing_from_library : LibraryAvailability

-- What the feed reads of its configuration; `page` and `per_page` are whole numbers.
pub record FeedConfig : Type 0 where
  pub page : ℕ
  pub per_page : ℕ
  pub library_availability : LibraryAvailability
  pub favorite_performers_only : Bool
  pub favorite_studios_only : Bool
  pub favorite_tags_only : Bool

abbrev uses_stash_local_favorite_overlays : FeedConfig → Bool
uses_stash_local_favorite_overlays config =
    config.favorite_performers_only || config.favorite_studios_only || config.favorite_tags_only

-- `resolveEffectiveAvailability`, whether it is IN_LIBRARY.
abbrev pub wants_in_library : FeedConfig → Bool
wants_in_library config = elim config.library_availability [
  | in_library ↦ true
  | missing_from_library ↦ false
  | any_availability ↦ uses_stash_local_favorite_overlays config
]

abbrev overscan_factor : ℕ
overscan_factor = 5

abbrev page_size_max : ℕ
page_size_max = 50

-- The numbers that the loop runs by.
pub record Plan : Type 0 where
  pub start_index : ℕ
  pub end_index_exclusive : ℕ
  pub match_target : ℕ
  pub max_inspected : ℕ
  pub page_size : ℕ

unfoldable pub plan_of : FeedConfig → Plan
plan_of config =
    let page = max 1 config.page in
    let per_page = max 1 config.per_page in
    let start = (page - 1) * per_page in
    let end = start + per_page in
    record {
      start_index = start;
      end_index_exclusive = end;
      match_target = end + 1;
      max_inspected = max ((end + 1) * overscan_factor) (per_page * overscan_factor);
      page_size = min (max (per_page * 2) per_page) page_size_max;
    }

pub record CandidatePage (Scene : Type 0) : Type 0 where
  pub scenes : List Scene
  pub total : ℕ

-- The state of the loop; a total is `none` before the first page, for infinity.
pub record Search (Scene : Type 0) : Type 0 where
  pub matched : List Scene
  pub inspected : ℕ
  pub next_page : ℕ
  pub total : Option ℕ
  pub reached_end : Bool

-- `total` is always null, and `effectiveAvailability` is `wants_in_library`.
pub record FeedResult (Scene : Type 0) : Type 0 where
  pub scenes : List Scene
  pub has_more : Bool

-- `n < totalCandidates`
abbrev pub below : ℕ → Option ℕ → Bool
below n none = true
below n (some total) = ltb n total

abbrev same_bool : Bool → Bool → Bool
same_bool true b = b
same_bool false b = not b

-- `resolveHybridLibraryAvailability`: the Stash adapter counts the scenes that carry the id for the
-- provider in use. The cache of one call has no effect on the answers.
abbrev pub resolve_hybrid_library_availability :
    Option CatalogProviderKey → (CatalogProviderKey → Text → ℕ) → Text → Bool
resolve_hybrid_library_availability none find_scenes stash_id = false
resolve_hybrid_library_availability (some key) find_scenes stash_id =
    ltb 0 (find_scenes key stash_id)

module _ {Scene : Type 0} where
  abbrev pub started : Search Scene
  started = record { matched = []; inspected = 0; next_page = 1; total = none; reached_end = false }

  abbrev pub goes_on : Plan → Search Scene → Bool
  goes_on plan s =
      ltb (length s.matched) plan.match_target
      && ltb s.inspected plan.max_inspected
      && below ((s.next_page - 1) * plan.page_size) s.total

  -- The loop over a page's results, which stops at the target.
  unfoldable pub push_matches : ℕ → (Scene → Bool) → List Scene → List Scene → List Scene
  push_matches target wanted matched [] = matched
  push_matches target wanted matched (scene ∷ scenes) =
      let more = matched ++ (scene ∷ []) in
      let went_on = push_matches target wanted more scenes in
      let passed_over = push_matches target wanted matched scenes in
      if wanted scene then (if leb target (length more) then more else went_on) else passed_over

  -- What one turn of the loop makes of the candidate page, which may be its last.
  unfoldable pub read_page :
      Plan → (Scene → Bool) → CandidatePage Scene → Search Scene → Search Scene
  read_page plan wanted candidates s =
      let scenes = take (plan.max_inspected - s.inspected) candidates.scenes in
      let short = ltb (length candidates.scenes) plan.page_size in
      if length scenes == 0
      then record s { total = some candidates.total; reached_end = true }
      else record {
        matched = push_matches plan.match_target wanted s.matched scenes;
        inspected = s.inspected + length scenes;
        next_page = s.next_page + (if short then 0 else 1);
        total = some candidates.total;
        reached_end = short;
      }

  -- The loop, on fuel; `reached_end` is where it breaks.
  unfoldable pub search_pages :
      ℕ → Plan → (Scene → Bool) → (ℕ → ℕ → CandidatePage Scene) → Search Scene → Search Scene
  unfolding read_page push_matches
  search_pages zero plan wanted get_scenes_by_sort s = s
  search_pages (suc fuel) plan wanted get_scenes_by_sort s =
      let t = read_page plan wanted (get_scenes_by_sort s.next_page plan.page_size) s in
      let rest = search_pages fuel plan wanted get_scenes_by_sort t in
      if goes_on plan s then (if t.reached_end then t else rest) else s

  unfoldable pub result_of : Plan → Search Scene → FeedResult Scene
  result_of plan s =
      let scenes =
        take (plan.end_index_exclusive - plan.start_index) (drop plan.start_index s.matched) in
      record {
        scenes = scenes;
        has_more =
            ltb plan.end_index_exclusive (length s.matched)
            || (not s.reached_end && ltb 0 (length scenes) && below s.inspected s.total);
      }

  -- Whether a scene's availability is the one that the feed is about.
  abbrev pub wanted_by : FeedConfig → (Scene → Bool) → Scene → Bool
  wanted_by config available scene = same_bool (available scene) (wants_in_library config)

  -- `getHybridSceneFeed`; `available` is `resolveHybridLibraryAvailability` on the scene's id.
  unfoldable pub get_hybrid_scene_feed :
      FeedConfig → (Scene → Bool) → (ℕ → ℕ → CandidatePage Scene) → FeedResult Scene
  get_hybrid_scene_feed config available get_scenes_by_sort =
      let plan = plan_of config in
      result_of plan (
        search_pages plan.max_inspected plan (wanted_by config available) get_scenes_by_sort
          started)
