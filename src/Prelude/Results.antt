-- ===== src/Prelude/Results.antt =====
-- The outcome of a request handler: a value, or one of the HTTP exceptions that the API throws.
-- A handler runs over a state that an exception does not roll back.
use mathlib.Core.Logic.{◌⊎◌, inl, inr}
use mathlib.Core.Path.{◌≡◌, refl}

pub data HttpError : Type 0 where
  bad_request unauthorized conflict not_found too_many_requests unavailable internal : HttpError

pub data Result {ℓ} (A : Type ℓ) : Type ℓ where
  ok : A → Result A
  err : HttpError → Result A

-- A handler over the state `S`.
abbrev pub Handler : Type 0 → Type 0 → Type 0
Handler S A = S → S × Result A

abbrev pub and_then : {S A B : Type 0} → S × Result A → (A → Handler S B) → S × Result B
and_then (s, ok a) k = k a s
and_then (s, err e) k = (s, err e)

infixl 5 ◌>>=◌ ◌>>◌
abbrev pub ◌>>=◌ : {S A B : Type 0} → Handler S A → (A → Handler S B) → Handler S B
◌>>=◌ m k s = and_then (m s) k

abbrev pub ◌>>◌ : {S B : Type 0} → Handler S (Unit {0}) → Handler S B → Handler S B
◌>>◌ m k s = and_then (m s) (λ _. k)

abbrev pub return : {S A : Type 0} → A → Handler S A
return a s = (s, ok a)

abbrev pub throw : {S A : Type 0} → HttpError → Handler S A
throw e s = (s, err e)

pub Result-cases {ℓ} :
    {A : Type ℓ} (r : Result A) → ((a : A) × (r ≡ ok a)) ⊎ ((e : HttpError) × (r ≡ err e))
Result-cases (ok a) = inl (a, refl)
Result-cases (err e) = inr (e, refl)
