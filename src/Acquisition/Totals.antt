-- ===== src/Acquisition/Totals.antt =====
-- The totals of the feed beside the rows that it pages over:
-- apps/sp-api/src/acquisition/acquisition.service.ts with the summary of
-- apps/sp-api/src/indexing/indexing.service.ts.
use mathlib.Core.Path.{subst}
use stasharr_portal.Prelude.Text.{eq_text}
use stasharr_portal.Prelude.{
  ℕ, suc, ◌-◌, ◌*◌, min, ◌≡◌, refl, ap, inl, inr, Option, List, [], ◌∷◌, map, ltb, length, ◌∙◌,
}
use stasharr_portal.Prelude.Int.{pos}
use stasharr_portal.Prelude.Results.{Result, ok, err, Result-cases}
use stasharr_portal.Catalog.{CatalogProviderKey}
use stasharr_portal.Catalog.Selection.{Integration}
use stasharr_portal.Indexing.SceneIndex.Summary.{SceneIndexSummary}
use stasharr_portal.Indexing.SceneIndex.Store.{IndexDatabase, Store}
use stasharr_portal.Indexing.SceneIndex.Sound.{Accurate, NotStale}
use stasharr_portal.Indexing.SceneIndex.Snapshot.{
  get_scene_index_summary, get_scene_index_summary-Accurate,
}
use stasharr_portal.Acquisition.{
  to_acquisition_item, base_url_of, or_stashdb, AcquisitionDatabase, AcquisitionLifecycleFilter,
  any_lifecycle, only, requested, downloading, import_pending, failed, AcquisitionScenesFeed,
  WhisparrConfig, build_where_clause, get_whisparr_config, get_scenes_feed, feed_of, feed_total,
  less, to_counts_by_lifecycle, get_lifecycle_total,
}

-- What a feed says of the scenes of the filter, by their number: the total is their number, there
-- is more exactly where the pages so far hold fewer, and the page holds those that are left after
-- the pages before it, up to its size.
pub record Pages (count page per_page : ℕ) (feed : AcquisitionScenesFeed) : Type 0 where
  pub total : feed.total ≡ pos count
  pub has_more : feed.has_more ≡ ltb (page * per_page) count
  pub items : length feed.items ≡ min per_page (count - (page - 1) * per_page)

feed_total-count :
    (db : IndexDatabase) (rows : db.scenes.table.Rows) (summary : SceneIndexSummary)
    (lifecycle : AcquisitionLifecycleFilter)
    → Accurate db rows summary
    → feed_total lifecycle summary ≡ pos (db.scenes.count (build_where_clause lifecycle) rows)
unfolding Accurate build_where_clause to_counts_by_lifecycle get_lifecycle_total
feed_total-count db rows summary any_lifecycle h = h.acquisition_tracked_scenes
feed_total-count db rows summary (only requested) h = h.requested_count
feed_total-count db rows summary (only downloading) h = h.downloading_count
feed_total-count db rows summary (only import_pending) h = h.import_pending_count
feed_total-count db rows summary (only failed) h = h.failed_count

length-map : {A B : Type 0} (f : A → B) (xs : List A) → length (map f xs) ≡ length xs
length-map f [] = refl
length-map f (x ∷ xs) = ap suc (length-map f xs)

abbrev value_or : {A : Type 0} → A → Result A → A
value_or d (ok a) = a
value_or d (err e) = d

feed_of-Pages :
    (db : AcquisitionDatabase) (now page per_page : ℕ) (lifecycle : AcquisitionLifecycleFilter)
    (config : Option WhisparrConfig) (provider : Option CatalogProviderKey) (store : Store db.index)
    (summary : SceneIndexSummary)
    → Accurate db.index store.scene_rows summary
    → Pages (db.index.scenes.count (build_where_clause lifecycle) store.scene_rows) page per_page (
        feed_of now page per_page lifecycle
          (db.find_page
            (build_where_clause lifecycle)
            ((page - 1) * per_page)
            per_page
            store.scene_rows)
          summary
          config
          provider)
feed_of-Pages db now page per_page lifecycle config provider store summary h =
    let total : feed_total lifecycle summary
        ≡ pos (db.index.scenes.count (build_where_clause lifecycle) store.scene_rows) =
      feed_total-count db.index store.scene_rows summary lifecycle h in
    record {
      total = total;
      has_more = ap (less (page * per_page)) total;
      items =
          length-map (λ r. to_acquisition_item r.0 r.1 (base_url_of config) (or_stashdb provider))
            (db.find_page (build_where_clause lifecycle) ((page - 1) * per_page) per_page
              store.scene_rows)
          ∙ db.length-find_page (build_where_clause lifecycle) ((page - 1) * per_page) per_page
              store.scene_rows;
    }

-- A feed that is given tells the number of the scenes of its filter in the index, whether there
-- are more than its pages so far hold, and as many items as are left for its page, if the summary
-- counts rightly or is not there.
pub get_scenes_feed-Pages :
    (db : AcquisitionDatabase) (now page per_page : ℕ) (lifecycle : AcquisitionLifecycleFilter)
    (whisparr : Result Integration) (provider : Option CatalogProviderKey) (store : Store db.index)
    (feed : AcquisitionScenesFeed)
    → NotStale db.index store
    → (get_scenes_feed db now page per_page lifecycle whisparr provider store).1 ≡ ok feed
    → Pages
        (db.index.scenes.count (build_where_clause lifecycle) store.scene_rows)
        page
        per_page
        feed
unfolding get_scenes_feed
get_scenes_feed-Pages db now page per_page lifecycle whisparr provider store feed stale h =
    elim (Result-cases (get_whisparr_config whisparr)) [
      | inr (e, r) ↦ cc (rw (r, get_scenes_feed) at h)
      | inl (config, r) ↦
          subst
            (Pages (db.index.scenes.count (build_where_clause lifecycle) store.scene_rows) page
              per_page)
            (ap (value_or feed) (rw (r, get_scenes_feed) at h))
            (feed_of-Pages db now page per_page lifecycle config provider store
              (get_scene_index_summary db.index store).1
              (get_scene_index_summary-Accurate db.index store stale))
    ]
