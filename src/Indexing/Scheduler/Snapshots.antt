-- ===== src/Indexing/Scheduler/Snapshots.antt =====
-- The heap snapshots that the diagnostics write over a run of completions,
-- apps/sp-api/src/indexing/indexing.scheduler.ts.
use mathlib.Core.Path.{subst}
use stasharr_portal.Prelude.{
  ℕ, ◌+◌, ◌<◌, ◌≡◌, ◌⊎◌, Bool, List, [], ◌∷◌, ◌≤◌, refl, inl, inr, not, arith, Bool-cases,
}
use stasharr_portal.Prelude.Text.{text, eq_text}
use stasharr_portal.Indexing.Scheduler.{
  Env, Diagnostics, read_non_negative_integer_env, is_any_memory_diagnostic_enabled,
  maybe_log_gc_sample, maybe_write_heap_snapshot, log_job_completion,
}

-- A completion: the clock, the heap in use, whether the collector can be called, and whether a
-- snapshot can be written.
pub record Completion : Type 0 where
  pub now : ℕ
  pub heap_used : ℕ
  pub gc_available : Bool
  pub written : Bool

abbrev pub completions : Env → List Completion → Diagnostics → Diagnostics
completions env [] d = d
completions env (c ∷ cs) d =
    completions env cs (log_job_completion env c.now c.heap_used c.gc_available c.written d)

abbrev pub max_snapshots : Env → ℕ
max_snapshots env =
    read_non_negative_integer_env env (text "STASHARR_INDEXING_HEAP_SNAPSHOT_MAX_COUNT") 4

-- One completion writes a snapshot at most, and none once the limit is reached.
abbrev Bounded : ℕ → ℕ → ℕ → Type 0
Bounded limit before now = (now ≡ before) ⊎ ((now ≡ before + 1) × (before < limit))

maybe_write_heap_snapshot-Bounded :
    (env : Env) (now heap_used : ℕ) (written : Bool) (d : Diagnostics)
    → Bounded
        (max_snapshots env)
        d.heap_snapshots_written
        (maybe_write_heap_snapshot env now heap_used written d).heap_snapshots_written
unfolding maybe_write_heap_snapshot
maybe_write_heap_snapshot-Bounded env now heap_used written d = ground arith

maybe_log_gc_sample-written :
    (env : Env) (now : ℕ) (gc_available : Bool) (d : Diagnostics)
    → (maybe_log_gc_sample env now gc_available d).heap_snapshots_written ≡ d.heap_snapshots_written
unfolding maybe_log_gc_sample
maybe_log_gc_sample-written env now gc_available d = ground arith

log_job_completion-Bounded :
    (env : Env) (now heap_used : ℕ) (gc_available written : Bool) (d : Diagnostics)
    → Bounded
        (max_snapshots env)
        d.heap_snapshots_written
        (log_job_completion env now heap_used gc_available written d).heap_snapshots_written
unfolding log_job_completion
log_job_completion-Bounded env now heap_used gc_available written d =
    elim (Bool-cases (not (is_any_memory_diagnostic_enabled env))) [
      | inl e ↦ rw (e, log_job_completion) (inl refl)
      | inr e ↦
          rw (e, log_job_completion)
            (subst
              (λ n.
                Bounded (max_snapshots env) n
                  (maybe_write_heap_snapshot env now heap_used written
                    (maybe_log_gc_sample env now gc_available d)).heap_snapshots_written)
              (maybe_log_gc_sample-written env now gc_available d)
              (maybe_write_heap_snapshot-Bounded env now heap_used written
                (maybe_log_gc_sample env now gc_available d)))
    ]

-- However many jobs complete, no more snapshots are written than the environment allows, four
-- where it does not say, if no more are written before.
pub completions-bounded :
    (env : Env) (cs : List Completion) (d : Diagnostics)
    → d.heap_snapshots_written ≤ max_snapshots env
    → (completions env cs d).heap_snapshots_written ≤ max_snapshots env
completions-bounded env [] d h = h
completions-bounded env (c ∷ cs) d h =
    completions-bounded env cs (log_job_completion env c.now c.heap_used c.gc_available c.written d)
      (ground
        (arith, h, log_job_completion-Bounded env c.now c.heap_used c.gc_available c.written d))
