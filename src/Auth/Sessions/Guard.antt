-- ===== src/Auth/Sessions/Guard.antt =====
-- Which requests the guard of apps/sp-api/src/auth/admin-session.guard.ts lets through.
use stasharr_portal.Prelude.Text.{Text, eq_text}
use stasharr_portal.Prelude.{
  ℕ, ◌≡◌, refl, inl, inr, Bool, true, false, ◌||◌, Option, none, if◌then◌else◌, Option-cases,
  is_some, some, Bool-cases,
}
use stasharr_portal.Database.{Table}
use stasharr_portal.Auth.Records.{AdminSession}
use stasharr_portal.Auth.Sessions.{World, can_activate, ok, err, unauthorized}
use stasharr_portal.Auth.Sessions.Verdict.{bearer, context_of}
use stasharr_portal.Auth.Sessions.Resolve.{resolve_request_auth-Resolves}

module _ (table : Table Text AdminSession) where
  context_of-authenticated :
      (cookie : Option Text) (now : ℕ) (w : World table)
      → (context_of table cookie w.admin (bearer table cookie now w)).authenticated
        ≡ is_some (bearer table cookie now w)
  context_of-authenticated none now w = refl
  context_of-authenticated (some id) now w = elim (Option-cases (bearer table (some id) now w)) [
    | inl e ↦ rw e refl
    | inr (u, e) ↦ rw e refl
  ]

  -- The guard lets a request with no cached context through exactly when its route is public or
  -- its cookie signs the admin in, and answers 401 to every other.
  pub can_activate-bearer :
      (is_public : Bool) (cookie : Option Text) (now : ℕ) (w : World table)
      → w.context ≡ none
      → (can_activate table is_public cookie now w).1
        ≡ (if is_public || is_some (bearer table cookie now w) then ok true else err unauthorized)
  unfolding can_activate
  can_activate-bearer true cookie now w fresh = refl
  can_activate-bearer false cookie now w fresh =
      let x = resolve_request_auth-Resolves table true cookie now w fresh in
      rw (x.answer, context_of-authenticated cookie now w, can_activate)
        (elim (Bool-cases (is_some (bearer table cookie now w))) [
          | inl e ↦ rw e refl
          | inr e ↦ rw e refl
        ])
