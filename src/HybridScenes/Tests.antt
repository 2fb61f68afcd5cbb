-- ===== src/HybridScenes/Tests.antt =====
-- The feed on a small catalogue of numbers.
use stasharr_portal.Prelude.Text.{eq_text}
use stasharr_portal.Prelude.{
  ℕ, zero, suc, ◌+◌, ◌≡◌, refl, Bool, true, false, not, ◌||◌, List, [], ◌∷◌, ltb, leb, ◌==◌, length,
}
use stasharr_portal.HybridScenes.{
  FeedConfig, FeedResult, missing_from_library, plan_of, push_matches, read_page, search_pages,
  result_of, get_hybrid_scene_feed,
}
use stasharr_portal.HybridScenes.Cover.{page_of}
use stasharr_portal.HybridScenes.Feed.{matching, get_hybrid_scene_feed-matching}

feed_run : Unit {0}
unfolding plan_of push_matches read_page search_pages result_of get_hybrid_scene_feed
feed_run = tt

abbrev up_from : ℕ → ℕ → List ℕ
up_from zero n = []
up_from (suc k) n = n ∷ up_from k (n + 1)

abbrev config_with : ℕ → FeedConfig
config_with page = record {
  page = page;
  per_page = 3;
  library_availability = missing_from_library;
  favorite_performers_only = false;
  favorite_studios_only = false;
  favorite_tags_only = false;
}

abbrev catalogue : List ℕ
catalogue = up_from 22 1

-- All scenes but 1, 21 and 22 are in the library.
abbrev available : ℕ → Bool
available n = not (n == 1 || leb 21 n)

abbrev feed : ℕ → FeedResult ℕ
feed page = get_hybrid_scene_feed (config_with page) available (page_of catalogue)

-- The first page stops at the inspection limit, and the second one starts after three matches: the
-- scenes 21 and 22 are on neither.
lost_scenes : ((feed 1).scenes ≡ 1 ∷ []) × ((feed 1).has_more ≡ false) × ((feed 2).scenes ≡ [])
unfolding feed_run
lost_scenes = (refl, refl, refl)

get_hybrid_scene_feed-matching_example :
    ((feed 1).scenes ≡ 1 ∷ [])
    × (ltb 3 (length (matching catalogue (config_with 1) available)) ≡ true
        → (feed 1).has_more ≡ true)
unfolding feed_run
get_hybrid_scene_feed-matching_example =
    get_hybrid_scene_feed-matching catalogue (config_with 1) available
