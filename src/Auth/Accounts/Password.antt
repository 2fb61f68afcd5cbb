-- ===== src/Auth/Accounts/Password.antt =====
-- What a change of the password leaves of the account and the sessions.
use stasharr_portal.Prelude.Results.{Result}
use stasharr_portal.Prelude.Text.{Text, text_eq, eq_text, text_eq_iff}
use stasharr_portal.Prelude.{
  ℕ, ◌+◌, ◌≡◌, refl, true, false, Option, none, some, arith, inl, inr, Bool-cases, ◌∙◌, not, ◌&&◌,
  ap,
}
use mathlib.Core.Option
use stasharr_portal.Prelude.Results.{Result, ok, err, unauthorized}
use stasharr_portal.Database.{Table, reject}
use stasharr_portal.Database.Updates.{update_found}
use stasharr_portal.Auth.Records.{AdminUser, AdminSession, Argon2, admin_of, session_ttl_ms}
use stasharr_portal.Auth.Sessions.{
  World, resolve_request_auth, require_parts, require_authenticated_request,
}
use stasharr_portal.Auth.Sessions.Verdict.{holder, bearer}
use stasharr_portal.Auth.Sessions.Resolve.{resolve_request_auth-Resolves}
use stasharr_portal.Auth.Accounts.{replace_password, check_change, change_password}

module _ (table : Table Text AdminSession) (argon2 : Argon2) where
  open table use {Rows, find_unique}

  pub holder-admin :
      (t : ℕ) (admin : Option AdminUser) (s : Option AdminSession) (u : AdminUser)
      → holder table t admin s ≡ some u
      → admin ≡ some u
  holder-admin t none none u h = cc h
  holder-admin t none (some s) u h = cc h
  holder-admin t (some v) none u h = cc h
  holder-admin t (some v) (some s) u h = ground (arith, h)

  abbrev pub changed_admin : AdminUser → Text → ℕ → AdminUser
  changed_admin u password salt = record u {
    password_hash = argon2.hash salt password;
    session_version = u.session_version + 1;
  }

  abbrev pub changed_row : AdminUser → ℕ → AdminSession → AdminSession
  changed_row u now row = record row {
    session_version = u.session_version + 1;
    expires_at = now + session_ttl_ms;
    last_seen_at = now;
  }

  -- What a change of the password leaves of the world `w`.
  pub record Changed (id : Text) (current new : Text) (salt now : ℕ) (u : AdminUser)
      (w v : World table) : Type 0 where
    pub verified : argon2.verify u.password_hash current ≡ true
    pub admin : v.admin ≡ some (changed_admin u new salt)
    pub own : find_unique id v.sessions ≡ Option.map (changed_row u now) (find_unique id w.sessions)
    pub others :
        (j : Text)
        → text_eq id j ≡ false
        → find_unique j v.sessions
          ≡ reject (λ row. text_eq row.user_id u.id) (find_unique j w.sessions)

  abbrev pub Verdict :
      (id : Text) (current new : Text) (salt now : ℕ) (u : AdminUser) (w : World table)
      → World table × Result (Unit {0})
      → Type 0
  Verdict id current new salt now u w (v, err e) = (v.admin ≡ w.admin) × (v.sessions ≡ w.sessions)
  Verdict id current new salt now u w (v, ok _) = Changed id current new salt now u w v

  replace_password-Changed :
      (id : Text) (current new : Text) (salt now : ℕ) (u : AdminUser) (s : AdminSession)
      (w : World table)
      → argon2.verify u.password_hash current ≡ true
      → find_unique id w.sessions ≡ some s
      → Verdict id current new salt now u w
          (replace_password table argon2 (admin_of u) id u new salt now w)
  unfolding replace_password
  replace_password-Changed id current new salt now u s w good e =
      let (rows, done, found) = update_found table id (changed_row u now) s w.sessions e in
      let p = λ (k : Text) (row : AdminSession). text_eq row.user_id u.id && not (text_eq k id) in
      let own_id : text_eq id id ≡ true = (text_eq_iff id id).1 refl in
      simp (done, replace_password)
        (record {
          verified = good;
          admin = refl;
          own = table.find-delete_many id p rows ∙ rw (found id, own_id, e) (ground arith);
          others = λ j other.
              table.find-delete_many j p rows
              ∙ rw (found j, other) (ground (arith, text_eq_iff id j, text_eq_iff j id));
        })

  pub check_change-Verdict :
      (id : Text) (current new : Text) (salt now : ℕ) (u : AdminUser) (s : AdminSession)
      (w : World table)
      → find_unique id w.sessions ≡ some s
      → Verdict id current new salt now u w
          (check_change table argon2 (admin_of u) id (some u) current new salt now w)
  unfolding check_change
  check_change-Verdict id current new salt now u s w e =
      elim (Bool-cases (argon2.verify u.password_hash current)) [
        | inl good ↦ elim (Bool-cases (text_eq current new)) [
          | inl same ↦ simp ((text_eq_iff u.id u.id).1 refl, good, same, check_change) (refl, refl)
          | inr other ↦
              simp ((text_eq_iff u.id u.id).1 refl, good, other, check_change)
                (replace_password-Changed id current new salt now u s w good e)
        ]
        | inr bad ↦ simp ((text_eq_iff u.id u.id).1 refl, bad, check_change) (refl, refl)
      ]

  -- A request whose cookie signs the admin in goes on to the checks of the passwords.
  pub change_password-check_change :
      (id : Text) (current new : Text) (salt now : ℕ) (u : AdminUser) (w : World table)
      → w.context ≡ none
      → bearer table (some id) now w ≡ some u
      → change_password table argon2 (some id) current new salt now w ≡ (
          let r = resolve_request_auth table true (some id) now w in
          check_change table argon2 (admin_of u) id (some u) current new salt now r.0)
  unfolding change_password require_authenticated_request require_parts
  change_password-check_change id current new salt now u w fresh e =
      let x = resolve_request_auth-Resolves table true (some id) now w fresh in
      let a = x.same_admin ∙ holder-admin now w.admin (find_unique id w.sessions) u e in
      rw (x.answer, e, change_password)
        (ap
          (λ admin.
            check_change table argon2 (admin_of u) id admin current new salt now
              (resolve_request_auth table true (some id) now w).0)
          a)

  pub change_password_refused :
      (id : Text) (current new : Text) (salt now : ℕ) (w : World table)
      → w.context ≡ none
      → bearer table (some id) now w ≡ none
      → change_password table argon2 (some id) current new salt now w
        ≡ ((resolve_request_auth table true (some id) now w).0, err unauthorized)
  unfolding change_password require_authenticated_request require_parts
  change_password_refused id current new salt now w fresh e =
      let x = resolve_request_auth-Resolves table true (some id) now w fresh in
      rw (x.answer, e, change_password) refl
