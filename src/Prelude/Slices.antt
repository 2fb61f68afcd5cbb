-- ===== src/Prelude/Slices.antt =====
-- Slices of lists and the members that a test keeps.
use Prim.Native.Nat.{ℕ, zero, suc, ◌+◌, ◌≤◌, ◌<◌, min}
use mathlib.Core.Path.{◌≡◌, refl, ap, ◌∙◌}
use mathlib.Core.Logic.{inl, inr}
use mathlib.Core.Bool.{Bool}
use mathlib.Core.List.{List, [], ◌∷◌, ◌++◌}
use native.Mathlib.Omega.{arith}
use stasharr_portal.Prelude.Lists.{length, take, drop, keep, length-take}
use stasharr_portal.Prelude.Tests.{Bool-cases}

module _ {ℓ} {A : Type ℓ} where
  -- A slice longer than the list is the list.
  pub take_all : (n : ℕ) (xs : List A) → length xs ≤ n → take n xs ≡ xs
  take_all zero [] h = refl
  take_all zero (x ∷ xs) h = ground arith
  take_all (suc n) [] h = refl
  take_all (suc n) (x ∷ xs) h = ap (λ ys. x ∷ ys) (take_all n xs (omega arith))

  -- A slice that is shorter than it may be is the list.
  pub take_short : (n : ℕ) (xs : List A) → length (take n xs) < n → take n xs ≡ xs
  take_short n xs h = take_all n xs (omega (arith, length-take n xs))

  pub take-take : (n m : ℕ) (xs : List A) → take n (take m xs) ≡ take (min n m) xs
  take-take zero m xs = let e : min 0 m ≡ 0 = omega arith in rw e refl
  take-take (suc n) zero xs = let e : min (suc n) 0 ≡ 0 = omega arith in rw e refl
  take-take (suc n) (suc m) [] =
      let e : min (suc n) (suc m) ≡ suc (min n m) = omega arith in rw e refl
  take-take (suc n) (suc m) (x ∷ xs) =
      let e : min (suc n) (suc m) ≡ suc (min n m) = omega arith in
      rw e (ap (λ ys. x ∷ ys) (take-take n m xs))

  -- A slice and what follows it.
  pub take-drop : (n m : ℕ) (xs : List A) → take n xs ++ take m (drop n xs) ≡ take (n + m) xs
  take-drop zero m xs = let e : 0 + m ≡ m = omega arith in rw e refl
  take-drop (suc n) zero [] = let e : suc n + 0 ≡ suc n = omega arith in rw e refl
  take-drop (suc n) (suc m) [] = let e : suc n + suc m ≡ suc (n + suc m) = omega arith in rw e refl
  take-drop (suc n) m (x ∷ xs) =
      let e : suc n + m ≡ suc (n + m) = omega arith in rw e (ap (λ ys. x ∷ ys) (take-drop n m xs))

  pub keep-append : (p : A → Bool) (xs ys : List A) → keep p (xs ++ ys) ≡ keep p xs ++ keep p ys
  keep-append p [] ys = refl
  keep-append p (x ∷ xs) ys = elim (Bool-cases (p x)) [
    | inl e ↦ rw e (ap (λ zs. x ∷ zs) (keep-append p xs ys))
    | inr e ↦ rw e (keep-append p xs ys)
  ]

  -- The slice of a list decides that of an extension once it is full.
  pub take-append : (n : ℕ) (xs ys : List A) → n ≤ length xs → take n (xs ++ ys) ≡ take n xs
  take-append zero xs ys h = refl
  take-append (suc n) [] ys h = ground arith
  take-append (suc n) (x ∷ xs) ys h = ap (λ zs. x ∷ zs) (take-append n xs ys (omega arith))

  pub append_nil_right : (xs : List A) → xs ++ [] ≡ xs
  append_nil_right [] = refl
  append_nil_right (x ∷ xs) = ap (λ ys. x ∷ ys) (append_nil_right xs)

  pub append_one : (xs : List A) (x : A) (ys : List A) → (xs ++ (x ∷ [])) ++ ys ≡ xs ++ (x ∷ ys)
  append_one [] x ys = refl
  append_one (w ∷ xs) x ys = ap (λ zs. w ∷ zs) (append_one xs x ys)

  -- A slice within a prefix is a slice of the whole.
  pub take-drop-take :
      (n s t : ℕ) (xs : List A) → s + n ≤ t → take n (drop s (take t xs)) ≡ take n (drop s xs)
  take-drop-take n zero t xs h = take-take n t xs ∙ ap (λ m. take m xs) (omega (arith, h))
  take-drop-take n (suc s) zero xs h = ground arith
  take-drop-take n (suc s) (suc t) [] h = refl
  take-drop-take n (suc s) (suc t) (x ∷ xs) h = take-drop-take n s t xs (omega (arith, h))
