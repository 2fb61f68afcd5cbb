-- ===== src/Indexing/SyncState/Exclusion.antt =====
-- The lease over time: runs of one job that claim the lease, are refused, and finish, in any order,
-- among other writes to the table.
use stasharr_portal.Prelude.Text.{Text, eq_text, text_eq_refl}
use stasharr_portal.Prelude.{
  ℕ, ◌+◌, ◌≤◌, ◌<◌, ◌≡◌, ◌≢◌, ◌⊎◌, Bool, true, false, not, Option, none, some, List, [], ◌∷◌, ◌++◌,
  arith, leb, length, All, ◌∙◌, inl, inr, if◌then◌else◌, sym,
}
use stasharr_portal.Database.{Table}
use stasharr_portal.Indexing.SyncState.{
  SyncState, lease_free, claimed, SuccessInput, Thrown, try_acquire_lease, record_success,
  mark_failure, succeeded_row,
}
use stasharr_portal.Indexing.SyncState.Lease.{
  row_or_default, try_acquire_lease_lem, record_success-row,
}

-- When the lease on a row ends; `none` is a free lease.
abbrev pub lease_of : Option SyncState → Option ℕ
lease_of none = none
lease_of (some row) = row.lease_until

abbrev has_lease : ℕ → Option ℕ → Bool
has_lease now none = false
has_lease now (some t) = not (leb t now)

-- At most one run is inside, and the row's lease is its own.
abbrev Alone : List ℕ → Option ℕ → Type 0
Alone [] held = Unit
Alone (d ∷ []) held = held ≡ some d
Alone (d ∷ e ∷ ds) held = ⊥

push-Alone :
    (now d : ℕ) (ds : List ℕ) (held new : Option ℕ)
    → Alone ds held
    → All (λ e. now < e) ds
    → has_lease now held ≡ false
    → new ≡ some d
    → Alone (d ∷ ds) new
push-Alone now d [] held new h t free e = e
push-Alone now d (x ∷ []) held new h t free e = ground arith
push-Alone now d (x ∷ y ∷ ds) held new h t free e = h

drop-Alone :
    (d : ℕ) (before after : List ℕ) (held new : Option ℕ)
    → Alone (before ++ d ∷ after) held
    → Alone (before ++ after) new
drop-Alone d [] [] held new h = tt
drop-Alone d [] (e ∷ after) held new h = absurd h
drop-Alone d (b ∷ []) after held new h = absurd h
drop-Alone d (b ∷ c ∷ before) after held new h = absurd h

-- What a claim gives and leaves, from the row before it and the row after it.
abbrev Claimed : ℕ → ℕ → Option SyncState → Option SyncState → Option SyncState → Type 0
Claimed now ms old given left =
    (has_lease now (lease_of old) ≡ true) × (given ≡ none) × (lease_of left ≡ lease_of old)
    ⊎ (has_lease now (lease_of old) ≡ false) × (given ≢ none) × (lease_of left ≡ some (now + ms))

claim_cases :
    (now ms : ℕ) (old given left : Option SyncState)
    → let row = row_or_default old in
      given ≡ (if lease_free now row then some (claimed now ms row) else none)
      → left ≡ some (if lease_free now row then claimed now ms row else row)
      → Claimed now ms old given left
claim_cases now ms old given left g l = ground arith

module _ (table : Table Text SyncState) (job : Text) (ms : ℕ) where
  open table use {Rows, find_unique}

  -- The table, the time of the last event, and for each run inside its handler the end of the lease
  -- that it was given.
  pub record World : Type 0 where
    pub rows : Rows
    pub clock : ℕ
    pub inside : List ℕ

  abbrev claim_at : ℕ → World → Rows × Option SyncState
  claim_at now w = try_acquire_lease table job now ms w.rows

  pub data Step (w w' : World) : Type 0 where
    claim :
        (now : ℕ)
        → w.clock ≤ now
        → All (λ d. now < d) w.inside
        → (claim_at now w).1 ≢ none
        → w' ≡ record { rows = (claim_at now w).0; clock = now; inside = (now + ms) ∷ w.inside }
        → Step w w'
    refuse :
        (now : ℕ)
        → w.clock ≤ now
        → (claim_at now w).1 ≡ none
        → w' ≡ record { rows = (claim_at now w).0; clock = now; inside = w.inside }
        → Step w w'
    succeed :
        (now d : ℕ) (before after : List ℕ) (input : SuccessInput)
        → w.clock ≤ now
        → w.inside ≡ before ++ d ∷ after
        → w' ≡ record {
          rows = record_success table job now input w.rows;
          clock = now;
          inside = before ++ after;
        }
        → Step w w'
    fail :
        (now d : ℕ) (before after : List ℕ) (error : Thrown) (rows : Rows)
        → w.clock ≤ now
        → w.inside ≡ before ++ d ∷ after
        → mark_failure table job now error w.rows ≡ some rows
        → w' ≡ record { rows = rows; clock = now; inside = before ++ after }
        → Step w w'
    write_elsewhere :
        (rows : Rows)
        → lease_of (find_unique job rows) ≡ lease_of (find_unique job w.rows)
        → w' ≡ record { rows = rows; clock = w.clock; inside = w.inside }
        → Step w w'

  pub data Reach (w : World) : World → Type 0 where
    here : Reach w w
    next : {u v : World} → Reach w u → Step u v → Reach w v

  abbrev lease : World → Option ℕ
  lease w = lease_of (find_unique job w.rows)

  lease-claim :
      (now : ℕ) (w : World)
      → Claimed now ms
          (find_unique job w.rows)
          (claim_at now w).1
          (find_unique job (claim_at now w).0)
  lease-claim now w =
      let (given, left) = try_acquire_lease_lem table job now ms w.rows job in
      claim_cases now ms (find_unique job w.rows) (claim_at now w).1
        (find_unique job (claim_at now w).0) given (left ∙ rw (text_eq_refl job))

  claim-Alone :
      (now : ℕ) (w : World)
      → Alone w.inside (lease w)
      → All (λ d. now < d) w.inside
      → (claim_at now w).1 ≢ none
      → Alone ((now + ms) ∷ w.inside) (lease_of (find_unique job (claim_at now w).0))
  claim-Alone now w h t n = elim (lease-claim now w) [
    | inl (held, refused, same) ↦ absurd (n refused)
    | inr (free, given, new) ↦ push-Alone now (now + ms) w.inside (lease w) _ h t free new
  ]

  refuse-Alone :
      (now : ℕ) (w : World)
      → Alone w.inside (lease w)
      → (claim_at now w).1 ≡ none
      → Alone w.inside (lease_of (find_unique job (claim_at now w).0))
  refuse-Alone now w h n = elim (lease-claim now w) [
    | inl (held, refused, same) ↦ rw same h
    | inr (free, given, new) ↦ absurd (given n)
  ]

  Step-Alone : (w w' : World) → Step w w' → Alone w.inside (lease w) → Alone w'.inside (lease w')
  Step-Alone w w' (claim now late on_time given e) h = rw e (claim-Alone now w h on_time given)
  Step-Alone w w' (refuse now late refused e) h = rw e (refuse-Alone now w h refused)
  Step-Alone w w' (succeed now d before after input late i e) h =
      rw e (drop-Alone d before after (lease w) _ (rw i at h))
  Step-Alone w w' (fail now d before after error rows late i m e) h =
      rw e (drop-Alone d before after (lease w) _ (rw i at h))
  Step-Alone w w' (write_elsewhere rows same e) h = rw e (rw same h)

  Reach-Alone : {w w' : World} → Alone w.inside (lease w) → Reach w w' → Alone w'.inside (lease w')
  Reach-Alone h here = h
  Reach-Alone h (next {u} {v} r st) = Step-Alone u v st (Reach-Alone h r)

  Alone-length : (ds : List ℕ) (held : Option ℕ) → Alone ds held → length ds ≤ 1
  Alone-length [] held h = omega arith
  Alone-length (d ∷ []) held h = omega arith
  Alone-length (d ∷ e ∷ ds) held h = absurd h

  -- From a world with no run inside, and as long as no run is still inside when its lease ends and a
  -- new claim is made, at most one run of the job is inside its handler at any time.
  pub at_most_one_run : {w w' : World} → w.inside ≡ [] → Reach w w' → length w'.inside ≤ 1
  at_most_one_run {w} {w'} e r = Alone-length w'.inside (lease w') (Reach-Alone (rw e tt) r)

-- The lease has no owner. Where a run holds the lease beyond the present time, so that a claim is
-- refused, a success that any run of the job records then (one that outlived its own lease, say)
-- lets the next claim through at once.
pub record_success_releases_any :
    (table : Table Text SyncState) (job : Text) (ms now until : ℕ) (input : SuccessInput)
    (row : SyncState) (db : table.Rows)
    → table.find_unique job db ≡ some row
    → row.lease_until ≡ some until
    → now < until
    → ((try_acquire_lease table job now ms db).1 ≡ none)
      × ((try_acquire_lease table job now ms (record_success table job now input db)).1 ≢ none)
record_success_releases_any table job ms now until input row db f u l =
    let db' : table.Rows = record_success table job now input db in
    let recorded : table.find_unique job db' ≡ some (succeeded_row now input row) =
      rw (record_success-row table job now db input job, text_eq_refl job, f) in
    let given : (try_acquire_lease table job now ms db').1
        ≡ some (claimed now ms (succeeded_row now input row)) =
      (try_acquire_lease_lem table job now ms db' job).0 ∙ rw recorded in
    (
      (try_acquire_lease_lem table job now ms db job).0 ∙ rw f (ground arith),
      λ refused. cc (sym refused ∙ given),
    )
