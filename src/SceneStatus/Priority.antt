-- ===== src/SceneStatus/Priority.antt =====
-- The loop over the queue against a description with no loop: the worst signal wins, and the order
-- of the items does not matter.
use stasharr_portal.Prelude.Text.{eq_text}
use stasharr_portal.Prelude.{
  ℕ, ◌≡◌, Bool, true, false, ◌||◌, Option, none, some, List, [], ◌∷◌, arith, if◌then◌else◌, any,
  refl, ap, ◌∙◌,
}
use mathlib.Core.Bool.{Bool-set}
use mathlib.Core.List.{Perm, Permᴰ}
use mathlib.Core.Logic.{∥∥₁_elim}
use stasharr_portal.SceneStatus.{
  SceneState, downloading, import_pending, QueueItem, Signal, broken, importing, queued, active,
  read_item, no_flags, Flags, after_loop, scan, resolve_queue_lifecycle_state,
}

abbrev pub is_broken : Signal → Bool
is_broken broken = true
is_broken _ = false

abbrev pub is_importing : Signal → Bool
is_importing importing = true
is_importing _ = false

abbrev pub is_active : Signal → Bool
is_active active = true
is_active _ = false

abbrev pub is_queued : Signal → Bool
is_queued queued = true
is_queued _ = false

-- Some item of the queue gives a signal that passes the test.
abbrev pub seen : (Signal → Bool) → ℕ → List QueueItem → Bool
seen test movie_id items = any (λ item. test (read_item movie_id item)) items

-- The worst of the signals of the movie's items.
abbrev pub worst : ℕ → List QueueItem → Option SceneState
worst movie_id items =
    if seen is_broken movie_id items
    then some SceneState.failed
    else if seen is_importing movie_id items
    then some import_pending
    else if seen is_active movie_id items
    then some downloading
    else if seen is_queued movie_id items
    then some SceneState.requested
    else none

scan-worst :
    (movie_id : ℕ) (f : Flags) (items : List QueueItem)
    → scan movie_id f items ≡ (
        if seen is_broken movie_id items
        then some SceneState.failed
        else if f.has_import_pending || seen is_importing movie_id items
        then some import_pending
        else if f.has_downloading || seen is_active movie_id items
        then some downloading
        else if f.has_requested || seen is_queued movie_id items
        then some SceneState.requested
        else none)
unfolding scan after_loop
scan-worst movie_id f [] = ground arith
scan-worst movie_id f (item ∷ items) = ground (
  arith,
  scan-worst movie_id f items,
  scan-worst movie_id (record f { has_import_pending = true }) items,
  scan-worst movie_id (record f { has_requested = true }) items,
  scan-worst movie_id (record f { has_downloading = true }) items,
)

-- The loop returns the worst signal of the movie's items: failed, then import pending, then
-- downloading, then requested, and nothing where no item says any of these.
pub resolve_queue_lifecycle_state-worst :
    (movie_id : ℕ) (items : List QueueItem)
    → resolve_queue_lifecycle_state movie_id items ≡ worst movie_id items
unfolding resolve_queue_lifecycle_state
resolve_queue_lifecycle_state-worst movie_id items = scan-worst movie_id no_flags items

any-permᴰ {ℓ} : {A : Type ℓ} (p : A → Bool) {xs ys : List A} → Permᴰ xs ys → any p xs ≡ any p ys
any-permᴰ p Permᴰ.nil = refl
any-permᴰ p (Permᴰ.cons e h) = ground (arith, ap p e, any-permᴰ p h)
any-permᴰ p (Permᴰ.swap e f) = ground (arith, ap p e, ap p f)
any-permᴰ p (Permᴰ.trans h k) = any-permᴰ p h ∙ any-permᴰ p k

pub seen-perm :
    (test : Signal → Bool) (movie_id : ℕ) {xs ys : List QueueItem}
    → Perm xs ys
    → seen test movie_id xs ≡ seen test movie_id ys
seen-perm test movie_id h =
    ∥∥₁_elim h (Bool-set _ _) (any-permᴰ (λ item. test (read_item movie_id item)))

-- The order in which Whisparr lists the queue does not change the state.
pub resolve_queue_lifecycle_state-perm :
    (movie_id : ℕ) {xs ys : List QueueItem}
    → Perm xs ys
    → resolve_queue_lifecycle_state movie_id xs ≡ resolve_queue_lifecycle_state movie_id ys
resolve_queue_lifecycle_state-perm movie_id {xs} {ys} h =
    rw (resolve_queue_lifecycle_state-worst movie_id xs) (
      rw (resolve_queue_lifecycle_state-worst movie_id ys) (
        rw (
          seen-perm is_broken movie_id h,
          seen-perm is_importing movie_id h,
          seen-perm is_active movie_id h,
          seen-perm is_queued movie_id h,
        )))
