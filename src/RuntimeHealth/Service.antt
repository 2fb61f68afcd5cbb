-- ===== src/RuntimeHealth/Service.antt =====
-- The service over its table and its in-memory cache,
-- apps/sp-api/src/runtime-health/runtime-health.service.ts. One call runs to its end before the
-- next.
use stasharr_portal.Prelude.Dict.{Dict, get, put, remove}
use stasharr_portal.Prelude.Text.{Text, eq_text}
use stasharr_portal.Prelude.{
  ℕ, Bool, true, false, ◌&&◌, ◌||◌, Option, none, some, List, [], ◌∷◌, map, if◌then◌else◌, any, all,
  is_some,
}
pub mod Cache
pub mod Coherence
pub mod Threshold
mod Tests
use mathlib.Core.Option
use stasharr_portal.Database.{Table}
use stasharr_portal.RuntimeHealth.Records.{
  ServiceKey, service_eq, service_eq_iff, eq_service, HealthStatus, HealthRecord, failure_threshold,
  throttle_ms, default_record, Reported, no_message, resolve_error_message, is_degraded,
  same_message, recent, throttled, or_now, failures_after, status_after, created_failure,
  changed_failure, recovered, created_recovery, changed_recovery, is_clean, record_or_default,
  ServiceSummary, catalog, stash, whisparr, healthy, degraded,
}

module _ (table : Table ServiceKey HealthRecord) where
  open table use {Rows, find_unique, upsert, update, delete_many}

  pub record Service : Type 0 where
    pub rows : Rows
    pub cache : Dict ServiceKey HealthRecord
    pub loaded_all : Bool

  -- `this.cache.set(service, record)` for a row that was read, nothing for one that is missing.
  pub cache_row : ServiceKey → Option HealthRecord → Service → Service
  cache_row s none w = w
  cache_row s (some r) w = record w { cache = put s r w.cache }

  pub ensure_loaded : ServiceKey → Service → Service
  unfolding cache_row
  ensure_loaded s w =
      if is_some (get s w.cache) || w.loaded_all then w else cache_row s (find_unique s w.rows) w

  -- `findMany` gives the rows of the three services.
  ensure_all_loaded : Service → Service
  unfolding cache_row
  ensure_all_loaded w =
      if w.loaded_all
      then w
      else (let load = λ (s : ServiceKey) (v : Service). cache_row s (find_unique s w.rows) v in
          record (load whisparr (load stash (load catalog w))) { loaded_all = true })

  to_summary : ServiceKey → Service → ServiceSummary
  to_summary s w =
      let r = record_or_default (get s w.cache) in
      record { service = s; is_degraded = is_degraded r.status; shown = r }

  unfoldable pub get_summary : Service → Service × (Bool × List ServiceSummary)
  unfolding ensure_all_loaded to_summary
  get_summary w =
      let v = ensure_all_loaded w in
      let all = to_summary catalog v ∷ to_summary stash v ∷ to_summary whisparr v ∷ [] in
      (v, (any (λ s. s.is_degraded) all, all))

  -- `this.cache.set(service, persisted)`, the row that the write returned.
  pub persist : ServiceKey → Rows → Service → Service
  unfolding cache_row
  persist s rows w = cache_row s (find_unique s rows) (record w { rows = rows })

  pub write_failure : ServiceKey → Text → ℕ → Service → Service
  unfolding persist
  write_failure s message now w =
      let found = get s w.cache in
      let current = record_or_default found in
      if is_some found && throttled current message now
      then w
      else persist s
          (upsert s (created_failure current message now) (changed_failure current message now)
            w.rows)
          w

  unfoldable pub record_failure : ServiceKey → Reported → ℕ → Service → Service
  unfolding ensure_loaded write_failure
  record_failure s error now w =
      write_failure s (resolve_error_message error) now (ensure_loaded s w)

  -- `none` where the cached row is gone from the table and `update` throws.
  pub write_success : ServiceKey → ℕ → Service → Option Service
  unfolding persist
  write_success s now w = elim (get s w.cache) [
    | none ↦ some w
    | some r ↦
        if is_clean r
        then some w
        else Option.map (λ rows. persist s rows w) (update s (recovered now) w.rows)
  ]

  unfoldable pub record_success : ServiceKey → ℕ → Service → Option Service
  unfolding ensure_loaded write_success
  record_success s now w = write_success s now (ensure_loaded s w)

  pub write_recovery : ServiceKey → ℕ → Service → Service
  unfolding persist
  write_recovery s now w =
      let current = record_or_default (get s w.cache) in
      persist s (upsert s (created_recovery now) (changed_recovery current now) w.rows) w

  unfoldable pub record_manual_recovery : ServiceKey → ℕ → Service → Service
  unfolding ensure_loaded write_recovery
  record_manual_recovery s now w = write_recovery s now (ensure_loaded s w)

  unfoldable pub clear_service : ServiceKey → Service → Service
  clear_service s w = record w {
    rows = delete_many (λ k _. service_eq k s) w.rows;
    cache = remove s w.cache;
  }

  unfoldable pub clear_all_services : Service → Service
  clear_all_services w = record w {
    rows = delete_many (λ _ _. true) w.rows;
    cache = remove whisparr (remove stash (remove catalog w.cache));
  }
