-- ===== src/Indexing/SyncState/Tests.antt =====
-- The lease on a table kept in memory, and its theorems at inputs that meet their hypotheses.
use stasharr_portal.Prelude.Dict.{get, put, remove}
use stasharr_portal.Prelude.Text.{Text, text, text_eq, eq_text}
use stasharr_portal.Prelude.{
  ℕ, ◌+◌, ◌≤◌, ◌≡◌, refl, ◌≢◌, ◌⊎◌, inl, inr, none, [], ◌∷◌, arith, length,
}
use stasharr_portal.Database.{Table}
use stasharr_portal.Database.Memory.{
  memory, create_row, update_row, update_rows, delete_rows, upsert_row,
}
use stasharr_portal.Indexing.SyncState.{
  SyncState, default_state, claimed, Thrown, an_error, LeaseConfig, success_input, skipped,
  returned, threw, serialize_error, try_acquire_lease, record_success, mark_failure, run_with_lease,
}
use stasharr_portal.Indexing.SyncState.Runs.{Outcome, run_with_lease-Outcome}
use stasharr_portal.Indexing.SyncState.Exclusion.{
  World, Step, claim, here, next, at_most_one_run, record_success_releases_any,
}

abbrev table : Table Text SyncState
table = memory Text SyncState

abbrev job : Text
job = text "scenes"

abbrev config : LeaseConfig ℕ
config = record { job_name = job; lease_ms = 100; on_success = none }

service : Unit {0}
unfolding run_with_lease try_acquire_lease record_success mark_failure serialize_error get put
    remove text_eq create_row update_row update_rows delete_rows upsert_row
service = tt

abbrev held : table.Rows
held = (job, claimed 5 100 default_state) ∷ []

abbrev done : table.Rows → table.Rows × (ℕ ⊎ Thrown)
done db = (db, inl 42)

abbrev crash : table.Rows → table.Rows × (ℕ ⊎ Thrown)
crash db = (db, inr (an_error none (text "boom")))

run_tests :
    ((run_with_lease table config 50 50 60 done held).1 ≡ skipped)
    × ((run_with_lease table config 105 106 160 done held).1 ≡ returned 42)
    × ((run_with_lease table config 105 106 160 crash held).1 ≡ threw (an_error none (text "boom")))
unfolding service
run_tests = (refl, refl, refl)

run_with_lease-Outcome_example :
    Outcome table config 105 106 160 crash held (run_with_lease table config 105 106 160 crash held)
run_with_lease-Outcome_example = run_with_lease-Outcome table config 105 106 160 crash held

abbrev quiet : World table job 100
quiet = record { rows = []; clock = 0; inside = [] }

abbrev busy : World table job 100
busy = record {
  rows = (try_acquire_lease table job 7 100 []).0;
  clock = 7;
  inside = (7 + 100) ∷ [];
}

first_claim : Step table job 100 quiet busy
unfolding service
first_claim = claim 7 (omega arith) tt (λ e. cc) refl

at_most_one_run_example : length busy.inside ≤ 1
at_most_one_run_example = at_most_one_run table job 100 {w = quiet} refl (next here first_claim)

record_success_releases_any_example :
    ((try_acquire_lease table job 50 100 held).1 ≡ none)
    × ((try_acquire_lease table job 50 100
          (record_success table job 50 (success_input none tt 1) held)).1
        ≢ none)
unfolding service
record_success_releases_any_example =
    record_success_releases_any table job 100 50 105 (success_input none tt 1)
      (claimed 5 100 default_state) held refl refl (omega arith)
