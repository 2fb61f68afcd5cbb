-- ===== src/RuntimeHealth/Service/Threshold.antt =====
-- When a service counts as degraded.
use stasharr_portal.Prelude.Dict.{===_refl}
use stasharr_portal.Prelude.Text.{Text, eq_text}
use stasharr_portal.Prelude.{
  ℕ, ◌≤◌, ◌<◌, ◌≡◌, sym, ◌∙◌, inl, inr, true, Option, none, some, arith, Bool-cases, is_some,
}
use mathlib.Core.Path.{subst}
use mathlib.Core.Option.{some-injective}
use stasharr_portal.Database.{Table}
use stasharr_portal.RuntimeHealth.Records.{
  ServiceKey, service_eq, eq_service, HealthRecord, HealthStatus, healthy, degraded,
  record_or_default, is_clean, failure_threshold, throttled, Reported, resolve_error_message,
}
use stasharr_portal.RuntimeHealth.Service.{
  Service, record_failure, record_success, record_manual_recovery,
}
use stasharr_portal.RuntimeHealth.Service.Cache.{
  fail_row, succeed_row, recover_row, IsCoherent, Writes,
}
use stasharr_portal.RuntimeHealth.Service.Coherence.{
  record_failure-Writes, record_success-Writes, record_manual_recovery-Writes,
}

-- A degraded record counts at least two failures and knows since when; a healthy one counts fewer.
abbrev pub IsSoundFor : HealthStatus → ℕ → Option ℕ → Type 0
IsSoundFor degraded n since = (failure_threshold ≤ n) × (is_some since ≡ true)
IsSoundFor healthy n since = (n < failure_threshold) × (since ≡ none)

abbrev pub IsSound : Option HealthRecord → Type 0
IsSound none = Unit
IsSound (some r) = IsSoundFor r.status r.consecutive_failures r.degraded_at

fail_row-IsSound :
    (message : Text) (now : ℕ) (o : Option HealthRecord)
    → IsSound o
    → IsSound (some (fail_row message now o))
fail_row-IsSound message now none h = ground arith
fail_row-IsSound message now (some r) h = elim (Bool-cases (throttled r message now)) [
  | inl quiet ↦ rw quiet h
  | inr loud ↦ rw loud (ground arith)
]

succeed_row-IsSound : (now : ℕ) (o : Option HealthRecord) → IsSound o → IsSound (succeed_row now o)
succeed_row-IsSound now none h = tt
succeed_row-IsSound now (some r) h = elim (Bool-cases (is_clean r)) [
  | inl clean ↦ rw clean h
  | inr unclean ↦ rw unclean (ground arith)
]

recover_row-IsSound :
    (now : ℕ) (o : Option HealthRecord) → IsSound o → IsSound (some (recover_row now o))
recover_row-IsSound now none h = ground arith
recover_row-IsSound now (some r) h = ground arith

two_failures :
    (m1 m2 : Text) (t1 t2 : ℕ) (o : Option HealthRecord)
    → is_clean (record_or_default o) ≡ true
    → (record_or_default o).degraded_at ≡ none
    → let r = fail_row m1 t1 o in
      (r.status ≡ healthy)
      × ((fail_row m2 t2 (some r)).status ≡ degraded)
      × ((fail_row m2 t2 (some r)).degraded_at ≡ some t2)
unfolding throttled
two_failures m1 m2 t1 t2 none clean since = ground arith
two_failures m1 m2 t1 t2 (some r) clean since = ground arith

module _ (table : Table ServiceKey HealthRecord) where
  open table use {find_unique}

  -- Every row of the table is sound.
  abbrev pub AllSound : Service table → Type 0
  AllSound w = (s : ServiceKey) → IsSound (find_unique s w.rows)

  Writes-AllSound :
      (s : ServiceKey) (new : Option HealthRecord) (w v : Service table)
      → Writes table s new w v
      → IsSound new
      → AllSound w
      → AllSound v
  Writes-AllSound s new w v (h, c) n a j = elim (Bool-cases (service_eq s j)) [
    | inl same ↦ rw (c j, same) n
    | inr other ↦ rw (c j, other) (a j)
  ]

  -- From a coherent cache over sound rows, every report leaves all rows sound: a service is marked
  -- degraded exactly when it counts two failures or more, and then has the time since when.
  pub reports-AllSound :
      (s : ServiceKey) (error : Reported) (now : ℕ) (w : Service table)
      → IsCoherent table w
      → AllSound w
      → AllSound (record_failure table s error now w)
        × AllSound (record_manual_recovery table s now w)
        × ((u : Service table) → record_success table s now w ≡ some u → AllSound u)
  reports-AllSound s error now w h a = (
    Writes-AllSound s _ w _ (record_failure-Writes table s error now w h)
        (fail_row-IsSound (resolve_error_message error) now (find_unique s w.rows) (a s)) a,
    Writes-AllSound s _ w _ (record_manual_recovery-Writes table s now w h)
        (recover_row-IsSound now (find_unique s w.rows) (a s)) a,
    λ u e.
        let (v, done, writes) = record_success-Writes table s now w h in
        subst AllSound (some-injective v u (sym done ∙ e)) (
          Writes-AllSound s (succeed_row now (find_unique s w.rows)) w v writes
            (succeed_row-IsSound now (find_unique s w.rows) (a s)) a),
  )

  -- The status of a service, from its row.
  abbrev pub shown : ServiceKey → Service table → HealthRecord
  shown s w = record_or_default (find_unique s w.rows)

  -- A service with no failure counted stays healthy at the first report and is degraded at the
  -- second, since the time of the second, whatever the messages and the times.
  pub second_failure_degrades :
      (s : ServiceKey) (e1 e2 : Reported) (t1 t2 : ℕ) (w : Service table)
      → IsCoherent table w
      → is_clean (shown s w) ≡ true
      → (shown s w).degraded_at ≡ none
      → let w1 = record_failure table s e1 t1 w in
        let w2 = record_failure table s e2 t2 w1 in
        ((shown s w1).status ≡ healthy)
        × ((shown s w2).status ≡ degraded)
        × ((shown s w2).degraded_at ≡ some t2)
  second_failure_degrades s e1 e2 t1 t2 w h clean since =
      let w1 = record_failure table s e1 t1 w in
      let m1 = resolve_error_message e1 in
      let m2 = resolve_error_message e2 in
      let (h1, c1) = record_failure-Writes table s e1 t1 w h in
      let (h2, c2) = record_failure-Writes table s e2 t2 w1 h1 in
      let first : find_unique s w1.rows ≡ some (fail_row m1 t1 (find_unique s w.rows)) =
        rw (c1 s, ===_refl s) in
      rw (c2 s, ===_refl s, first) (two_failures m1 m2 t1 t2 (find_unique s w.rows) clean since)
