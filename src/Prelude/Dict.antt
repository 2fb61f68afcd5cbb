-- ===== src/Prelude/Dict.antt =====
-- A JavaScript `Map` as an association list: `get`, `set` (here `put`) and `delete` (here
-- `remove`), over keys with a Boolean test of equality.
use native.Mathlib.Omega.{arith}
use mathlib.Core.Bool.{true}
use mathlib.Core.Path.{◌≡◌, refl}
use mathlib.Core.Option.{Option, none, some}
use mathlib.Core.List.{List, ◌∷◌, []}
use stasharr_portal.Prelude.Tests.{if◌then◌else◌, Eq, ◌===◌}

abbrev pub Dict {ℓ κ} : Type ℓ → Type κ → Type (ℓ ⊔ κ)
Dict K V = List (K × V)

pub ===_refl {ℓ} : {K : Type ℓ} ⦃e : Eq K⦄ (k : K) → (k === k) ≡ true
===_refl ⦃e⦄ k = (e.beq_iff k k).1 refl

module _ {ℓ κ} {K : Type ℓ} ⦃e : Eq K⦄ {V : Type κ} where
  unfoldable pub get : K → Dict K V → Option V
  get k [] = none
  get k ((j, v) ∷ m) = if j === k then some v else get k m

  unfoldable pub put : K → V → Dict K V → Dict K V
  put k v [] = (k, v) ∷ []
  put k v ((j, w) ∷ m) = if j === k then (k, v) ∷ m else (j, w) ∷ put k v m

  unfoldable pub remove : K → Dict K V → Dict K V
  remove k [] = []
  remove k ((j, v) ∷ m) = let rest = remove k m in if j === k then rest else (j, v) ∷ rest

  pub get-put :
      (k j : K) (v : V) (m : Dict K V) → get j (put k v m) ≡ (if k === j then some v else get j m)
  unfolding get put
  get-put k j v [] = refl
  get-put k j v ((i, w) ∷ m) =
      ground (arith, e.beq_iff k j, e.beq_iff i k, e.beq_iff i j, get-put k j v m)

  pub get-remove :
      (k j : K) (m : Dict K V) → get j (remove k m) ≡ (if k === j then none else get j m)
  unfolding get remove
  get-remove k j [] = ground arith
  get-remove k j ((i, w) ∷ m) =
      ground (arith, e.beq_iff k j, e.beq_iff i k, e.beq_iff i j, get-remove k j m)

  pub get-put_self : (k : K) (v : V) (m : Dict K V) → get k (put k v m) ≡ some v
  get-put_self k v m = rw (get-put k k v m, ===_refl k)

  pub get-remove_self : (k : K) (m : Dict K V) → get k (remove k m) ≡ none
  get-remove_self k m = rw (get-remove k k m, ===_refl k)
