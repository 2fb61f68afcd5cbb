-- ===== src/RuntimeHealth/Service/Tests.antt =====
-- The service on a table kept in memory, and its theorems at inputs that meet their hypotheses.
use stasharr_portal.Prelude.Dict.{get, put, remove}
use stasharr_portal.Prelude.Text.{text, text_eq, eq_text}
use stasharr_portal.Prelude.{◌≡◌, refl, inl, true, false, some, []}
use mathlib.Core.Option
use stasharr_portal.Database.{Table}
use stasharr_portal.Database.Memory.{
  memory, create_row, update_row, update_rows, delete_rows, upsert_row,
}
use stasharr_portal.RuntimeHealth.Records.{
  ServiceKey, stash, service_eq, eq_service, HealthRecord, healthy, throttled, Reported,
  with_message, resolve_error_message,
}
use stasharr_portal.RuntimeHealth.Service.{
  Service, record_failure, record_success, record_manual_recovery, get_summary,
}
use stasharr_portal.RuntimeHealth.Service.Cache.{fail_row, IsCoherent, Writes}
use stasharr_portal.RuntimeHealth.Service.Coherence.{record_failure-Writes}
use stasharr_portal.RuntimeHealth.Service.Threshold.{AllSound, shown}

abbrev table : Table ServiceKey HealthRecord
table = memory ServiceKey HealthRecord

abbrev fresh : Service table
fresh = record { rows = []; cache = []; loaded_all = false }

service : Unit {0}
unfolding record_failure record_success record_manual_recovery get_summary resolve_error_message
    throttled get put remove text_eq create_row update_row update_rows delete_rows upsert_row
    service_eq
service = tt

abbrev timeout : Reported
timeout = with_message (text " ETIMEDOUT ")

abbrev twice : Service table
twice = record_failure table stash timeout 9 (record_failure table stash timeout 5 fresh)

health_tests :
    ((get_summary table twice).1.0 ≡ true)
    × ((shown table stash twice).last_error_message ≡ some (text "ETIMEDOUT"))
    × (record_failure table stash timeout 30008 twice ≡ twice)
    × ((shown table stash (record_failure table stash timeout 30009 twice)).consecutive_failures
        ≡ 3)
    × (Option.map (λ w. (shown table stash w).status) (record_success table stash 10 twice)
        ≡ some healthy)
unfolding service
health_tests = (refl, refl, refl, refl, refl)

fresh-IsCoherent : IsCoherent table fresh
unfolding get
fresh-IsCoherent s = inl refl

fresh-AllSound : AllSound table fresh
unfolding get
fresh-AllSound s = tt

record_failure-Writes_example :
    Writes table stash
      (some (fail_row (resolve_error_message timeout) 5 (table.find_unique stash [])))
      fresh
      (record_failure table stash timeout 5 fresh)
record_failure-Writes_example = record_failure-Writes table stash timeout 5 fresh fresh-IsCoherent
