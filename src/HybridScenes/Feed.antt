-- ===== src/HybridScenes/Feed.antt =====
-- The page of the feed, against a catalogue that is served page by page.
use stasharr_portal.Prelude.Text.{eq_text}
use stasharr_portal.Prelude.{
  ◌+◌, ◌-◌, ◌≤◌, ◌<◌, ◌≡◌, refl, sym, Bool, true, List, [], arith, ltb, length, take, drop, keep,
  take_all, ap, ◌∙◌, ltb→lt, lt→ltb, length-take, take-drop-take,
}
use stasharr_portal.HybridScenes.{
  Plan, FeedConfig, Search, started, search_pages, plan_of, result_of, wanted_by,
  get_hybrid_scene_feed,
}
use stasharr_portal.HybridScenes.Cover.{page_of, IsAt}
use stasharr_portal.HybridScenes.Pages.{search_pages-cover}

sized : (config : FeedConfig) → 0 < (plan_of config).page_size
unfolding plan_of
sized config = omega arith

targets :
    (config : FeedConfig)
    → ((plan_of config).match_target ≡ (plan_of config).end_index_exclusive + 1)
      × ((plan_of config).start_index ≤ (plan_of config).end_index_exclusive)
unfolding plan_of
targets config = (refl, omega arith)

module _ {Scene : Type 0} (all : List Scene) where
  started-IsAt : (plan : Plan) (wanted : Scene → Bool) → IsAt plan wanted all 0 started
  started-IsAt plan wanted = record {
    page = refl;
    at = omega arith;
    matches = sym (take_all plan.match_target [] (omega arith));
    counted = λ n e. cc e;
  }

  -- The scenes of the catalogue that the feed is about, as far as it inspects the catalogue.
  abbrev pub matching : FeedConfig → (Scene → Bool) → List Scene
  matching config available =
      keep (wanted_by config available) (take (plan_of config).max_inspected all)

  found-matching :
      (config : FeedConfig) (available : Scene → Bool)
      → (search_pages
          (plan_of config).max_inspected
          (plan_of config)
          (wanted_by config available)
          (page_of all)
          started).matched
        ≡ take (plan_of config).match_target (matching config available)
  found-matching config available =
      search_pages-cover (plan_of config) (wanted_by config available) all
        (plan_of config).max_inspected 0 started
        (started-IsAt (plan_of config) (wanted_by config available)) (sized config) (omega arith)

  result_of-matched :
      (plan : Plan) (s : Search Scene) (found : List Scene)
      → plan.match_target ≡ plan.end_index_exclusive + 1
      → plan.start_index ≤ plan.end_index_exclusive
      → s.matched ≡ take plan.match_target found
      → ((result_of plan s).scenes
          ≡ take (plan.end_index_exclusive - plan.start_index) (drop plan.start_index found))
        × (ltb plan.end_index_exclusive (length found) ≡ true → (result_of plan s).has_more ≡ true)
  unfolding result_of
  result_of-matched plan s found target ordered e =
      let start = plan.start_index in
      let end = plan.end_index_exclusive in
      (
        ap (λ xs. take (end - start) (drop start xs)) e
            ∙ take-drop-take (end - start) start plan.match_target found
                (omega (arith, target, ordered)),
        λ more.
            let longer : end < length found = ltb→lt end (length found) more in
            let past : end < length s.matched =
              omega (arith, longer, target, ap length e, length-take plan.match_target found) in
            let past_test : ltb end (length s.matched) ≡ true =
              lt→ltb end (length s.matched) past in
            rw past_test refl,
      )

  -- Where the catalogue is served in pages, the feed's page is that page of the scenes that it is
  -- about among those that it inspects; and it has more whenever these go on past the page.
  pub get_hybrid_scene_feed-matching :
      (config : FeedConfig) (available : Scene → Bool)
      → let feed = get_hybrid_scene_feed config available (page_of all) in
        let plan = plan_of config in
        (feed.scenes
          ≡ take
              (plan.end_index_exclusive - plan.start_index)
              (drop plan.start_index (matching config available)))
        × (ltb plan.end_index_exclusive (length (matching config available)) ≡ true
            → feed.has_more ≡ true)
  unfolding get_hybrid_scene_feed
  get_hybrid_scene_feed-matching config available =
      let (target, ordered) = targets config in
      result_of-matched (plan_of config)
        (search_pages (plan_of config).max_inspected (plan_of config) (wanted_by config available)
          (page_of all) started)
        (matching config available) target ordered (found-matching config available)
