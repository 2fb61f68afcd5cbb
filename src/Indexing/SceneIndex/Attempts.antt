-- ===== src/Indexing/SceneIndex/Attempts.antt =====
-- The retries of `executePatchChunk`, apps/sp-api/src/indexing/indexing.service.ts.
use stasharr_portal.Prelude.{
  ℕ, suc, ◌≡◌, refl, ◌⊎◌, inl, inr, Option, none, List, sym, Bool, true, false, not, ◌||◌, some,
  leb, if◌then◌else◌, ◌∙◌, arith, ap, Option-cases, Bool-cases,
}
use stasharr_portal.Prelude.Text.{Text, eq_text}
use stasharr_portal.Prelude.Dict.{Dict}
use stasharr_portal.Indexing.SyncState.{Thrown}
use stasharr_portal.Indexing.SceneIndex.{SceneIndexPatch, SceneIndexRow}
use stasharr_portal.Indexing.SceneIndex.Store.{
  IndexDatabase, Store, is_deadlock_error, invalidate_scheduled_metadata_backfill_check_if_needed,
}
use stasharr_portal.Indexing.SceneIndex.Apply.{
  Queues, Written, returned, thrown, attempt_chunk, attempts_from, execute_patch_chunk, after_pass,
  next_rows, set_rows, transaction,
}

module _ (db : IndexDatabase) where
  Written-cases :
      (w : Written db)
      → ((e : Thrown) × (w ≡ thrown e))
        ⊎ ((s : Store db) × ((m : Dict Text SceneIndexRow) × (w ≡ returned s m)))
  Written-cases (thrown e) = inl (e, refl)
  Written-cases (returned s m) = inr (s, (m, refl))

  abbrev error_of : Written db → Thrown
  error_of (thrown e) = e
  error_of (returned s m) = db.record_not_found

  -- An error that another attempt may follow.
  abbrev retriable : Option Thrown → Bool
  retriable none = false
  retriable (some error) = is_deadlock_error error

  -- The pass that the loop ends with, by the outcomes of its three.
  abbrev pub last_outcome : (ℕ → Option Thrown) → Option Thrown
  last_outcome outcome =
      if retriable (outcome 1)
      then if retriable (outcome 2) then outcome 3 else outcome 2
      else outcome 1

  module _ (now : ℕ) (outcome : ℕ → Option Thrown) (queues : Queues) (chunk : List SceneIndexPatch)
      (existing : Dict Text SceneIndexRow) (store : Store db) where
    pass : ℕ → Written db
    pass attempt = attempt_chunk db now (outcome attempt) queues chunk existing store

    loop : ℕ → ℕ → Written db
    loop left attempt = attempts_from db left attempt now outcome queues chunk existing store

    loop_step :
        (left attempt : ℕ)
        → loop (suc left) attempt ≡ after_pass db attempt (pass attempt) (loop left (suc attempt))
    unfolding loop pass attempts_from
    loop_step left attempt = refl

    loop_returns :
        (left attempt : ℕ) (s : Store db) (m : Dict Text SceneIndexRow)
        → pass attempt ≡ returned s m
        → loop (suc left) attempt ≡ pass attempt
    loop_returns left attempt s m t =
        loop_step left attempt
        ∙ (ap (λ w. after_pass db attempt w (loop left (suc attempt))) t ∙ sym t)

    loop_stops :
        (left attempt : ℕ) (e : Thrown)
        → pass attempt ≡ thrown e
        → (not (is_deadlock_error e) || leb 3 attempt) ≡ true
        → loop (suc left) attempt ≡ pass attempt
    loop_stops left attempt e t stop =
        loop_step left attempt
        ∙ (ap (λ w. after_pass db attempt w (loop left (suc attempt))) t ∙ (rw stop refl ∙ sym t))

    loop_retries :
        (left attempt : ℕ) (e : Thrown)
        → pass attempt ≡ thrown e
        → (not (is_deadlock_error e) || leb 3 attempt) ≡ false
        → loop (suc left) attempt ≡ loop left (suc attempt)
    loop_retries left attempt e t go =
        loop_step left attempt
        ∙ (ap (λ w. after_pass db attempt w (loop left (suc attempt))) t ∙ rw go refl)

    -- The last attempt is final.
    loop_last : (left attempt : ℕ) → leb 3 attempt ≡ true → loop (suc left) attempt ≡ pass attempt
    loop_last left attempt h = elim (Written-cases (pass attempt)) [
      | inl (e, t) ↦ loop_stops left attempt e t (ground (arith, h))
      | inr (s, (m, t)) ↦ loop_returns left attempt s m t
    ]

    pass_of : Option Thrown → Written db
    pass_of o = attempt_chunk db now o queues chunk existing store

    pass_of-none : (e : Thrown) → pass_of none ≡ thrown e → is_deadlock_error e ≡ false
    unfolding pass_of attempt_chunk
    pass_of-none e t = go (transaction db now (next_rows existing queues chunk) existing store) t
      where
        go :
            (o : Option (Store db))
            → (elim o [
              | none ↦ thrown db.record_not_found
              | some store' ↦
                  returned
                    (invalidate_scheduled_metadata_backfill_check_if_needed db now
                      (next_rows existing queues chunk)
                      store')
                    (set_rows (next_rows existing queues chunk) existing)
            ])
              ≡ thrown e
            → is_deadlock_error e ≡ false
        go none h = ap (λ w. is_deadlock_error (error_of w)) (sym h) ∙ db.record_not_found_lem
        go (some store') h = cc h

    pass_of-some : (e f : Thrown) → pass_of (some f) ≡ thrown e → f ≡ e
    unfolding pass_of attempt_chunk
    pass_of-some e f t = ap error_of t

    -- What a pass throws is what the database said of it, or that the summary was not there.
    thrown_cases :
        (attempt : ℕ) (e : Thrown)
        → pass attempt ≡ thrown e
        → retriable (outcome attempt) ≡ is_deadlock_error e
    unfolding pass pass_of
    thrown_cases attempt e t = elim (Option-cases (outcome attempt)) [
      | inl n ↦ ap retriable n ∙ sym (pass_of-none e (ap pass_of (sym n) ∙ t))
      | inr (f, n) ↦
          ap retriable n ∙ ap is_deadlock_error (pass_of-some e f (ap pass_of (sym n) ∙ t))
    ]

    pass_returns_settled :
        (attempt : ℕ) (s : Store db) (m : Dict Text SceneIndexRow)
        → pass attempt ≡ returned s m
        → retriable (outcome attempt) ≡ false
    unfolding pass pass_of attempt_chunk
    pass_returns_settled attempt s m t = elim (Option-cases (outcome attempt)) [
      | inl n ↦ ap retriable n
      | inr (f, n) ↦ let clash : thrown f ≡ returned s m = ap pass_of (sym n) ∙ t in cc clash
    ]

    loop_settled :
        (left attempt : ℕ)
        → retriable (outcome attempt) ≡ false
        → loop (suc left) attempt ≡ pass attempt
    loop_settled left attempt h = elim (Written-cases (pass attempt)) [
      | inl (e, t) ↦
          let final : is_deadlock_error e ≡ false = sym (thrown_cases attempt e t) ∙ h in
          loop_stops left attempt e t (rw final refl)
      | inr (s, (m, t)) ↦ loop_returns left attempt s m t
    ]

    loop_again :
        (left attempt : ℕ)
        → retriable (outcome attempt) ≡ true
        → leb 3 attempt ≡ false
        → loop (suc left) attempt ≡ loop left (suc attempt)
    loop_again left attempt h more = elim (Written-cases (pass attempt)) [
      | inl (e, t) ↦
          let deadlock : is_deadlock_error e ≡ true = sym (thrown_cases attempt e t) ∙ h in
          loop_retries left attempt e t (rw (deadlock, more) refl)
      | inr (s, (m, t)) ↦ cc (pass_returns_settled attempt s m t, h)
    ]

    loop_lem : loop 3 1 ≡ attempt_chunk db now (last_outcome outcome) queues chunk existing store
    unfolding pass
    loop_lem = elim (Bool-cases (retriable (outcome 1))) [
      | inr first ↦ loop_settled 2 1 first ∙ rw first refl
      | inl first ↦ loop_again 2 1 first refl ∙ elim (Bool-cases (retriable (outcome 2))) [
        | inr second ↦ loop_settled 1 2 second ∙ rw (first, second) refl
        | inl second ↦ loop_again 1 2 second refl ∙ (loop_last 0 3 refl ∙ rw (first, second) refl)
      ]
    ]

-- The loop of `executePatchChunk` comes to an end within its three attempts, and it ends as the
-- first attempt does whose outcome is no deadlock, or as the third.
pub execute_patch_chunk_lem :
    (db : IndexDatabase) (now : ℕ) (outcome : ℕ → Option Thrown) (queues : Queues)
    (chunk : List SceneIndexPatch) (existing : Dict Text SceneIndexRow) (store : Store db)
    → execute_patch_chunk db now outcome queues chunk existing store
      ≡ attempt_chunk db now (last_outcome db outcome) queues chunk existing store
unfolding execute_patch_chunk loop
execute_patch_chunk_lem db now outcome queues chunk existing store =
    loop_lem db now outcome queues chunk existing store
