-- ===== src/Acquisition/Tests.antt =====
-- The feed over an index in memory, and its theorem and that of the diagnostics there.
use stasharr_portal.Prelude.{
  ◌+◌, ◌-◌, ◌*◌, ◌≡◌, refl, Bool, none, some, List, [], ◌∷◌, arith, length, take, drop, keep,
  length-take, length-drop,
}
use stasharr_portal.Prelude.Text.{Text, text, eq_text}
use stasharr_portal.Prelude.Dict.{Dict, get}
use stasharr_portal.Prelude.Int.{pos}
use stasharr_portal.Prelude.Results.{ok, err, not_found}
use stasharr_portal.Database.Counts.{count_rows}
use stasharr_portal.SceneStatus.{RequestStatus}
use stasharr_portal.Indexing.SceneIndex.{
  SceneIndexPatch, SceneIndexRow, value, empty_patch, pending, hydrated, failed_retryable,
}
use stasharr_portal.Indexing.SceneIndex.Store.{Store}
use stasharr_portal.Indexing.SceneIndex.Sample.{index}
use stasharr_portal.Indexing.SceneIndex.Summary.{has_metadata_state}
use stasharr_portal.Indexing.SceneIndex.Sound.{NotStale}
use stasharr_portal.Indexing.SceneIndex.Apply.{apply_scene_index_patches}
use stasharr_portal.Indexing.SceneIndex.Invariant.{apply_scene_index_patches-NotStale}
use stasharr_portal.Indexing.SceneIndex.Snapshot.{
  get_scene_index_summary, get_indexing_diagnostics_snapshot,
  get_indexing_diagnostics_snapshot-counts,
}
use stasharr_portal.Acquisition.{
  AcquisitionDatabase, AcquisitionScenesFeed, any_lifecycle, build_where_clause,
  get_whisparr_config, get_scenes_feed, feed_of,
}
use stasharr_portal.Acquisition.Totals.{Pages, get_scenes_feed-Pages}

abbrev passing : (SceneIndexRow → Bool) → Dict Text SceneIndexRow → List (Text × SceneIndexRow)
passing p rows = keep (λ r. p r.1) rows

length-passing :
    (p : SceneIndexRow → Bool) (rows : Dict Text SceneIndexRow)
    → length (passing p rows) ≡ count_rows p rows
unfolding count_rows
length-passing p [] = refl
length-passing p ((id, row) ∷ rows) = ground (arith, length-passing p rows)

abbrev database : AcquisitionDatabase
database = record {
  index = index;
  find_page = λ p skip n rows. take n (drop skip (passing p rows));
  length-find_page = λ p skip n rows. omega (
    arith,
    length-take n (drop skip (passing p rows)),
    length-drop skip (passing p rows),
    length-passing p rows,
  );
}

abbrev fresh_store : Store index
fresh_store = record { scene_rows = []; summary_rows = []; next_metadata_backfill_check_at = none }

fresh-NotStale : NotStale index fresh_store
unfolding get
fresh-NotStale s e = cc e

abbrev wanted : List SceneIndexPatch
wanted =
    record (empty_patch (text "a")) { request_status = value (some RequestStatus.requested) }
    ∷ record (empty_patch (text "b")) { request_status = value (some RequestStatus.failed) }
    ∷ []

abbrev filled : Store index
filled = (apply_scene_index_patches index 100 (λ _ _. none) wanted none fresh_store).0

filled-NotStale : NotStale index filled
filled-NotStale =
    apply_scene_index_patches-NotStale index 100 (λ _ _. none) wanted none fresh_store
      fresh-NotStale

abbrev feed : AcquisitionScenesFeed
feed =
    feed_of 200 1 24 any_lifecycle
      (database.find_page (build_where_clause any_lifecycle) ((1 - 1) * 24) 24 filled.scene_rows)
      (get_scene_index_summary index filled).1 none none

gives_feed :
    (get_scenes_feed database 200 1 24 any_lifecycle (err not_found) none filled).1 ≡ ok feed
unfolding get_scenes_feed get_whisparr_config
gives_feed = refl

get_scenes_feed-Pages_example :
    Pages (index.scenes.count (build_where_clause any_lifecycle) filled.scene_rows) 1 24 feed
get_scenes_feed-Pages_example =
    get_scenes_feed-Pages database 200 1 24 any_lifecycle (err not_found) none filled feed
      filled-NotStale gives_feed

get_indexing_diagnostics_snapshot-counts_example :
    ((get_indexing_diagnostics_snapshot index 3 filled).1.metadata_hydrated_count
      ≡ pos (index.scenes.count (has_metadata_state hydrated) filled.scene_rows))
    × ((get_indexing_diagnostics_snapshot index 3 filled).1.metadata_backlog_count
        ≡ pos (
            index.scenes.count (has_metadata_state pending) filled.scene_rows
            + index.scenes.count (has_metadata_state failed_retryable) filled.scene_rows))
get_indexing_diagnostics_snapshot-counts_example =
    get_indexing_diagnostics_snapshot-counts index 3 filled filled-NotStale
