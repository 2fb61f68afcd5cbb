-- ===== src/RuntimeHealth/Service/Cache.antt =====
-- When the cache agrees with the table, and what loading and storing a record keep of that.
use stasharr_portal.Prelude.Dict.{get, get-put, ===_refl, get-put_self}
use stasharr_portal.Prelude.Text.{Text, eq_text}
use stasharr_portal.Prelude.{
  ℕ, ◌≡◌, ◌⊎◌, Bool, false, Option, none, some, if◌then◌else◌, refl, sym, ap, ◌∙◌, inl, inr, true,
  ◌||◌, arith, Bool-cases, is_some,
}
use stasharr_portal.Database.{Table, upserted}
use stasharr_portal.RuntimeHealth.Records.{
  ServiceKey, service_eq, service_eq_iff, eq_service, HealthRecord, throttled, default_record,
  created_failure, changed_failure, recovered, created_recovery, changed_recovery, is_clean,
}
use stasharr_portal.RuntimeHealth.Service.{Service, cache_row, ensure_loaded, persist}

-- What each call makes of the row of its service.
abbrev pub fail_row : Text → ℕ → Option HealthRecord → HealthRecord
fail_row message now none = created_failure default_record message now
fail_row message now (some r) =
    if throttled r message now then r else changed_failure r message now r

abbrev pub succeed_row : ℕ → Option HealthRecord → Option HealthRecord
succeed_row now none = none
succeed_row now (some r) = some (if is_clean r then r else recovered now r)

abbrev pub recover_row : ℕ → Option HealthRecord → HealthRecord
recover_row now none = created_recovery now
recover_row now (some r) = changed_recovery r now r

-- A cached record is the row; a service without one has not been loaded, or has no row.
abbrev pub IsCoherentAt : Option HealthRecord → Option HealthRecord → Bool → Type 0
IsCoherentAt cached row loaded_all = (cached ≡ row) ⊎ (cached ≡ none) × (loaded_all ≡ false)

module _ (table : Table ServiceKey HealthRecord) where
  open table use {Rows, find_unique, upsert, update}

  abbrev pub IsCoherent : Service table → Type 0
  IsCoherent w = (s : ServiceKey) → IsCoherentAt (get s w.cache) (find_unique s w.rows) w.loaded_all

  -- The same table but at one service.
  abbrev pub ChangesOnly : ServiceKey → Option HealthRecord → Rows → Rows → Type 0
  ChangesOnly s new old rows =
      (j : ServiceKey) → find_unique j rows ≡ (if service_eq s j then new else find_unique j old)

  pub cache_row-cache :
      (s j : ServiceKey) (r : HealthRecord) (w : Service table)
      → get j (cache_row table s (some r) w).cache
        ≡ (if service_eq s j then some r else get j w.cache)
  unfolding cache_row
  cache_row-cache s j r w = get-put s j r w.cache

  pub same_row :
      (s j : ServiceKey) (rows : Rows)
      → service_eq s j ≡ true
      → find_unique s rows ≡ find_unique j rows
  same_row s j rows same = ap (λ k. find_unique k rows) ((service_eq_iff s j).0 same)

  pub cache_row-rows :
      (s : ServiceKey) (o : Option HealthRecord) (w : Service table)
      → (cache_row table s o w).rows ≡ w.rows
  unfolding cache_row
  cache_row-rows s none w = refl
  cache_row-rows s (some r) w = refl

  pub cache_row-IsCoherent :
      (s : ServiceKey) (o : Option HealthRecord) (w : Service table)
      → find_unique s w.rows ≡ o
      → IsCoherent w
      → IsCoherent (cache_row table s o w)
  unfolding cache_row
  cache_row-IsCoherent s none w e h j = h j
  cache_row-IsCoherent s (some r) w e h j = elim (Bool-cases (service_eq s j)) [
    | inl same ↦ inl (rw (get-put s j r w.cache, same) (sym e ∙ same_row s j w.rows same))
    | inr other ↦ rw (get-put s j r w.cache, other) (h j)
  ]

  pub cached_is_row :
      (s : ServiceKey) (w : Service table)
      → IsCoherent w
      → (is_some (get s w.cache) || w.loaded_all) ≡ true
      → get s w.cache ≡ find_unique s w.rows
  cached_is_row s w h e = elim (h s) [ inl p ↦ p | inr (missing, unloaded) ↦ ground arith ]

  pub cache_row-get :
      (s : ServiceKey) (o : Option HealthRecord) (w : Service table)
      → get s w.cache ≡ none
      → get s (cache_row table s o w).cache ≡ o
  unfolding cache_row
  cache_row-get s none w e = e
  cache_row-get s (some r) w e = get-put_self s r w.cache

  -- What loading one service gives: the same table, and its row in the cache.
  abbrev pub Loads : ServiceKey → Service table → Service table → Type 0
  Loads s w v = IsCoherent v × (v.rows ≡ w.rows) × (get s v.cache ≡ find_unique s w.rows)

  pub ensure_loaded-Loads :
      (s : ServiceKey) (w : Service table) → IsCoherent w → Loads s w (ensure_loaded table s w)
  unfolding ensure_loaded
  ensure_loaded-Loads s w h = elim (Bool-cases (is_some (get s w.cache) || w.loaded_all)) [
    | inl loaded ↦ rw (loaded, ensure_loaded) (h, refl, cached_is_row s w h loaded)
    | inr missing ↦
        rw (missing, ensure_loaded)
          (
            cache_row-IsCoherent s (find_unique s w.rows) w refl h,
            cache_row-rows s (find_unique s w.rows) w,
            cache_row-get s (find_unique s w.rows) w (ground arith),
          )
  ]

  -- Writing the row of one service, and caching it, keeps the others coherent.
  pub persist-IsCoherent :
      (s : ServiceKey) (new : HealthRecord) (rows : Rows) (w : Service table)
      → ChangesOnly s (some new) w.rows rows
      → IsCoherent w
      → IsCoherent (persist table s rows w) × ((persist table s rows w).rows ≡ rows)
  unfolding persist
  persist-IsCoherent s new rows w c h =
      let written : find_unique s rows ≡ some new = rw (c s, ===_refl s) in
      rw (written, persist, cache_row)
        (
          (λ j. elim (Bool-cases (service_eq s j)) [
            | inl same ↦
                inl (rw (get-put s j new w.cache, same) (sym written ∙ same_row s j rows same))
            | inr other ↦ rw (get-put s j new w.cache, c j, other) (h j)
          ]),
          refl,
        )

  pub upsert-ChangesOnly :
      (s : ServiceKey) (fresh : HealthRecord) (change : HealthRecord → HealthRecord) (rows : Rows)
      → ChangesOnly s
          (some (upserted fresh change (find_unique s rows)))
          rows
          (upsert s fresh change rows)
  upsert-ChangesOnly s fresh change rows j = table.find-upsert s j fresh change rows

  -- The effect of a call: the cache stays coherent, and only the row of the service changes, to the
  -- one given.
  abbrev pub Writes : ServiceKey → Option HealthRecord → Service table → Service table → Type 0
  Writes s new w v = IsCoherent v × ChangesOnly s new w.rows v.rows

  pub persist-Writes :
      (s : ServiceKey) (new : HealthRecord) (rows : Rows) (w v : Service table)
      → Loads s w v
      → ChangesOnly s (some new) w.rows rows
      → Writes s (some new) w (persist table s rows v)
  persist-Writes s new rows w v (h, same, got) c =
      let (coherent, written) = persist-IsCoherent s new rows v (rw same c) h in
      (coherent, rw written c)

  pub keep-Writes :
      (s : ServiceKey) (w v : Service table) (old : Option HealthRecord)
      → Loads s w v
      → find_unique s w.rows ≡ old
      → Writes s old w v
  keep-Writes s w v old (h, same, got) e = (
    h,
    λ j. rw same (elim (Bool-cases (service_eq s j)) [
      | inl eq ↦ rw eq (sym (same_row s j w.rows eq) ∙ e)
      | inr other ↦ rw other
    ]),
  )

  -- A write that `upsert` makes of the loaded row.
  pub upsert-Writes :
      (s : ServiceKey) (fresh : HealthRecord) (change : HealthRecord → HealthRecord)
      (old : Option HealthRecord) (w v : Service table)
      → Loads s w v
      → find_unique s w.rows ≡ old
      → Writes s
          (some (upserted fresh change old))
          w
          (persist table s (upsert s fresh change v.rows) v)
  upsert-Writes s fresh change old w v l e =
      persist-Writes s (upserted fresh change old) (upsert s fresh change v.rows) w v l
        (λ j. rw (l.1) (rw e at (upsert-ChangesOnly s fresh change w.rows j)))
