-- ===== src/Indexing/SceneIndex/Sample.antt =====
-- An index in memory, for runs on concrete inputs.

use stasharr_portal.Prelude.{◌≡◌, refl, Bool, true, false, none, [], ◌∷◌, leb, ◌==◌, if◌then◌else◌}
use stasharr_portal.Prelude.Text.{Text, text, eq_text, includes, to_lower}
use stasharr_portal.Database.Memory.{memory}
use stasharr_portal.Database.Counts.{counted_memory}
use stasharr_portal.Indexing.SyncState.{Thrown, an_error}
use stasharr_portal.Indexing.SceneIndex.{SceneIndexRow}
use stasharr_portal.Indexing.SceneIndex.Summary.{SceneIndexSummary}
use stasharr_portal.Indexing.SceneIndex.Store.{IndexDatabase, is_deadlock_error}

abbrev pub text_le : Text → Text → Bool
text_le [] _ = true
text_le (x ∷ xs) [] = false
text_le (x ∷ xs) (y ∷ ys) = if x == y then text_le xs ys else leb x y

abbrev pub no_record : Thrown
no_record = an_error none (text "No record was found for an update.")

pub no_record-is_deadlock_error : is_deadlock_error no_record ≡ false
unfolding is_deadlock_error to_lower includes
no_record-is_deadlock_error = refl

abbrev pub index : IndexDatabase
index = record {
  scenes = counted_memory Text SceneIndexRow;
  newest_row = λ _. none;
  summaries = memory Text SceneIndexSummary;
  locale_le = text_le;
  record_not_found = no_record;
  record_not_found_lem = no_record-is_deadlock_error;
}
