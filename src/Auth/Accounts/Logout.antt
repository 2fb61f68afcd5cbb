-- ===== src/Auth/Accounts/Logout.antt =====
-- What a logout leaves of the sessions.
use stasharr_portal.Prelude.Text.{Text, eq_text, text_eq, text_eq_iff}
use stasharr_portal.Prelude.{
  ℕ, ◌≡◌, refl, ap, ◌∙◌, Bool, not, Option, none, some, is_some, sym, inl, inr, true, Option-cases,
}
use stasharr_portal.Database.{Table}
use stasharr_portal.Database.Updates.{find-delete_key}
use stasharr_portal.Auth.Records.{AdminUser, AdminSession, Argon2, anonymous}
use stasharr_portal.Auth.Sessions.{World, resolve_request_auth}
use stasharr_portal.Auth.Sessions.Verdict.{holder, bearer, context_of}
use stasharr_portal.Auth.Sessions.Resolve.{resolve_request_auth-Resolves, kept}
use stasharr_portal.Auth.Accounts.{leave, logout, ok}
use stasharr_portal.Auth.Accounts.Login.{next}

module _ (table : Table Text AdminSession) (argon2 : Argon2) where
  open table use {Rows, find_unique}

  -- A cookie that is not a bearer's is anonymous.
  pub stranger-answer :
      (respond : Bool) (id : Text) (t : ℕ) (w : World table)
      → bearer table (some id) t w ≡ none
      → (resolve_request_auth table respond (some id) t (next w)).1
        ≡ ok (anonymous (not (is_some w.admin)))
  stranger-answer respond id t w lost =
      (resolve_request_auth-Resolves table respond (some id) t (next w) refl).answer
      ∙ ap (λ user. ok (context_of table (some id) w.admin user)) lost

  no_admin-holder : (t : ℕ) (s : Option AdminSession) → holder table t none s ≡ none
  no_admin-holder t none = refl
  no_admin-holder t (some s) = refl

  pub gone-holder : (t : ℕ) (admin : Option AdminUser) → holder table t admin none ≡ none
  gone-holder t none = refl
  gone-holder t (some u) = refl

  refused-kept :
      (respond : Bool) (now : ℕ) (admin : Option AdminUser) (s : Option AdminSession)
      → holder table now admin s ≡ none
      → kept table respond now admin s ≡ none
  refused-kept respond now admin none h = refl
  refused-kept respond now admin (some s) h = rw h refl

  -- A cookie that signs nobody in now will not do so after the request.
  refused-bearer :
      (id : Text) (now t : ℕ) (w : World table)
      → w.context ≡ none
      → bearer table (some id) now w ≡ none
      → bearer table (some id) t (resolve_request_auth table true (some id) now w).0 ≡ none
  refused-bearer id now t w fresh refused =
      let r = resolve_request_auth table true (some id) now w in
      let x = resolve_request_auth-Resolves table true (some id) now w fresh in
      elim (Option-cases w.admin) [
        | inl a ↦
            ap (λ admin. holder table t admin (find_unique id r.0.sessions)) (x.same_admin ∙ a)
            ∙ no_admin-holder t (find_unique id r.0.sessions)
        | inr (u, a) ↦
            let row : find_unique id r.0.sessions ≡ none =
              x.rows id
              ∙ rw (a, (text_eq_iff id id).1 refl)
                  (sym (ap (λ admin. kept table true now admin (find_unique id w.sessions)) a)
                    ∙ refused-kept true now w.admin (find_unique id w.sessions) refused) in
            ap (holder table t r.0.admin) row ∙ gone-holder t r.0.admin
      ]

  logout-bearer :
      (id : Text) (now t : ℕ) (w : World table)
      → w.context ≡ none
      → (bearer table (some id) t (logout table argon2 (some id) now w).0 ≡ none)
        × ((logout table argon2 (some id) now w).0.admin ≡ w.admin)
  unfolding logout leave
  logout-bearer id now t w fresh =
      let r = resolve_request_auth table true (some id) now w in
      let x = resolve_request_auth-Resolves table true (some id) now w fresh in
      elim (Option-cases (bearer table (some id) now w)) [
        | inl refused ↦
            rw (x.answer, refused, logout) (refused-bearer id now t w fresh refused, x.same_admin)
        | inr (u, e) ↦
            let row : find_unique id (table.delete_many (λ k _. text_eq k id) r.0.sessions) ≡ none =
              find-delete_key table id id r.0.sessions ∙ rw ((text_eq_iff id id).1 refl) refl in
            rw (x.answer, e, logout)
              (ap (holder table t r.0.admin) row ∙ gone-holder t r.0.admin, x.same_admin)
      ]

  -- After a logout, any later request with the same cookie is anonymous.
  pub logout_ends_session :
      (respond : Bool) (id : Text) (now t : ℕ) (w : World table)
      → w.context ≡ none
      → (resolve_request_auth table respond
          (some id)
          t
          (next (logout table argon2 (some id) now w).0)).1
        ≡ ok (anonymous (not (is_some w.admin)))
  logout_ends_session respond id now t w fresh =
      let (lost, same) = logout-bearer id now t w fresh in
      stranger-answer respond id t (logout table argon2 (some id) now w).0 lost
      ∙ ap (λ admin. ok (anonymous (not (is_some admin)))) same
