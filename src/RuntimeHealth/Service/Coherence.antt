-- ===== src/RuntimeHealth/Service/Coherence.antt =====
-- The cache is transparent: as long as only this service writes the table, `recordFailure`,
-- `recordSuccess` and `recordManualRecovery` read and write what they would with no cache.
use mathlib.Core.Option.{some-injective}
use stasharr_portal.Prelude.Text.{Text, eq_text}
use stasharr_portal.Prelude.{
  ℕ, ◌≡◌, none, some, if◌then◌else◌, refl, sym, ap, ◌∙◌, inl, inr, Bool-cases, Option-cases,
}
use mathlib.Core.Option
use mathlib.Core.Path.{subst}
use stasharr_portal.Database.{Table}
use stasharr_portal.RuntimeHealth.Records.{
  ServiceKey, service_eq, eq_service, HealthRecord, throttled, default_record, created_failure,
  changed_failure, recovered, created_recovery, changed_recovery, is_clean, Reported,
  resolve_error_message,
}
use stasharr_portal.RuntimeHealth.Service.{
  Service, ensure_loaded, persist, write_failure, record_failure, write_success, record_success,
  write_recovery, record_manual_recovery,
}
use stasharr_portal.RuntimeHealth.Service.Cache.{
  IsCoherent, ChangesOnly, Loads, ensure_loaded-Loads, Writes, persist-Writes, keep-Writes,
  upsert-Writes, fail_row, succeed_row, recover_row,
}

module _ (table : Table ServiceKey HealthRecord) where
  open table use {Rows, find_unique, upsert, update}

  write_failure-Writes :
      (s : ServiceKey) (message : Text) (now : ℕ) (w v : Service table)
      → Loads table s w v
      → Writes table s
          (some (fail_row message now (find_unique s w.rows)))
          w
          (write_failure table s message now v)
  unfolding write_failure
  write_failure-Writes s message now w v l = elim (Option-cases (find_unique s w.rows)) [
    | inl e ↦
        rw (e, l.2 ∙ e, write_failure)
          (upsert-Writes table s (created_failure default_record message now)
            (changed_failure default_record message now) none w v l e)
    | inr (r, e) ↦ elim (Bool-cases (throttled r message now)) [
      | inl quiet ↦ rw (e, l.2 ∙ e, quiet, write_failure) (keep-Writes table s w v (some r) l e)
      | inr loud ↦
          rw (e, l.2 ∙ e, loud, write_failure)
            (upsert-Writes table s (created_failure r message now) (changed_failure r message now)
              (some r) w v l e)
    ]
  ]

  -- From a coherent cache `recordFailure` stays coherent and changes the row of its service alone,
  -- as it would by the row with no cache: a repeated report within 30 seconds of a degraded service
  -- changes nothing, and any other counts one more failure.
  pub record_failure-Writes :
      (s : ServiceKey) (error : Reported) (now : ℕ) (w : Service table)
      → IsCoherent table w
      → Writes table s
          (some (fail_row (resolve_error_message error) now (find_unique s w.rows)))
          w
          (record_failure table s error now w)
  unfolding record_failure
  record_failure-Writes s error now w h =
      write_failure-Writes s (resolve_error_message error) now w (ensure_loaded table s w)
        (ensure_loaded-Loads table s w h)

  write_recovery-Writes :
      (s : ServiceKey) (now : ℕ) (w v : Service table)
      → Loads table s w v
      → Writes table s
          (some (recover_row now (find_unique s w.rows)))
          w
          (write_recovery table s now v)
  unfolding write_recovery
  write_recovery-Writes s now w v l = elim (Option-cases (find_unique s w.rows)) [
    | inl e ↦
        rw (e, l.2 ∙ e, write_recovery)
          (upsert-Writes table s (created_recovery now) (changed_recovery default_record now) none w
            v l e)
    | inr (r, e) ↦
        rw (e, l.2 ∙ e, write_recovery)
          (upsert-Writes table s (created_recovery now) (changed_recovery r now) (some r) w v l e)
  ]

  -- From a coherent cache `recordManualRecovery` stays coherent, leaves the row of its service
  -- healthy with no failure counted, keeping the last failure, and changes no other row.
  pub record_manual_recovery-Writes :
      (s : ServiceKey) (now : ℕ) (w : Service table)
      → IsCoherent table w
      → Writes table s
          (some (recover_row now (find_unique s w.rows)))
          w
          (record_manual_recovery table s now w)
  unfolding record_manual_recovery
  record_manual_recovery-Writes s now w h =
      write_recovery-Writes s now w (ensure_loaded table s w) (ensure_loaded-Loads table s w h)

  update-ChangesOnly :
      (s : ServiceKey) (change : HealthRecord → HealthRecord) (r : HealthRecord) (rows : Rows)
      → find_unique s rows ≡ some r
      → (rows' : Rows) × (update s change rows ≡ some rows')
        × ChangesOnly table s (some (change r)) rows rows'
  update-ChangesOnly s change r rows e = elim (Option-cases (update s change rows)) [
    | inl lost ↦ cc (table.find-update s s change rows, ap (Option.map (find_unique s)) lost, e)
    | inr (rows', done) ↦ (
      rows',
      done,
      λ j.
          some-injective (find_unique j rows')
            (if service_eq s j then some (change r) else find_unique j rows)
            (sym (ap (Option.map (find_unique j)) done)
              ∙ (table.find-update s j change rows ∙ rw e)),
    )
  ]

  write_success-Writes :
      (s : ServiceKey) (now : ℕ) (w v : Service table)
      → Loads table s w v
      → (u : Service table) × (write_success table s now v ≡ some u)
        × Writes table s (succeed_row now (find_unique s w.rows)) w u
  unfolding write_success
  write_success-Writes s now w v l = elim (Option-cases (find_unique s w.rows)) [
    | inl e ↦ rw (e, l.2 ∙ e, write_success) (v, refl, keep-Writes table s w v none l e)
    | inr (r, e) ↦ elim (Bool-cases (is_clean r)) [
      | inl clean ↦
          rw (e, l.2 ∙ e, clean, write_success) (v, refl, keep-Writes table s w v (some r) l e)
      | inr unclean ↦
          let (rows, done, c) =
            update-ChangesOnly s (recovered now) r v.rows (ap (find_unique s) l.1 ∙ e) in
          rw (e, l.2 ∙ e, unclean, done, write_success)
            (
              persist table s rows v,
              refl,
              persist-Writes table s (recovered now r) rows w v l
                  (subst (λ x. ChangesOnly table s (some (recovered now r)) x rows) l.1 c),
            )
    ]
  ]

  -- From a coherent cache `recordSuccess` does not throw, stays coherent and changes the row of its
  -- service alone: a row that is neither degraded nor counts a failure stays, as does a missing one,
  -- and any other becomes healthy.
  pub record_success-Writes :
      (s : ServiceKey) (now : ℕ) (w : Service table)
      → IsCoherent table w
      → (u : Service table) × (record_success table s now w ≡ some u)
        × Writes table s (succeed_row now (find_unique s w.rows)) w u
  unfolding record_success
  record_success-Writes s now w h =
      write_success-Writes s now w (ensure_loaded table s w) (ensure_loaded-Loads table s w h)
