-- ===== src/Auth/Accounts/Revocation.antt =====
-- Which sessions sign the admin in once the password has changed.
use stasharr_portal.Prelude.Results.{Result}
use stasharr_portal.Prelude.Text.{Text, text_eq, eq_text, text_eq_iff}
use stasharr_portal.Prelude.{
  ℕ, ◌+◌, ◌≡◌, refl, true, Option, none, some, arith, inl, inr, ◌∙◌, ap, sym, Option-cases, ◌<◌,
  Bool, false, ltb, Bool-cases,
}
use mathlib.Core.Path.{subst}
use stasharr_portal.Auth.Accounts.Login.{next}
use stasharr_portal.Prelude.Results.{Result, ok, err}
use stasharr_portal.Database.{Table, reject}
use stasharr_portal.Auth.Records.{
  AdminUser, AdminSession, Argon2, session_ttl_ms, session_touch_interval_ms,
}
use stasharr_portal.Auth.Sessions.{World, resolve_request_auth}
use stasharr_portal.Auth.Sessions.Verdict.{holder, bearer, context_of}
use stasharr_portal.Auth.Sessions.Resolve.{resolve_request_auth-Resolves}
use stasharr_portal.Auth.Accounts.{change_password, anonymous, signed_in, admin_of}
use stasharr_portal.Auth.Accounts.Logout.{gone-holder, stranger-answer}
use stasharr_portal.Auth.Accounts.Password.{
  Changed, Verdict, changed_admin, changed_row, holder-admin, check_change-Verdict,
  change_password-check_change,
}
use stasharr_portal.Auth.Sessions.Verdict.{touched}

module _ (table : Table Text AdminSession) (argon2 : Argon2) where
  open table use {Rows, find_unique}

  Verdict-ok :
      (id : Text) (current new : Text) (salt now : ℕ) (u : AdminUser) (w : World table)
      (r : World table × Result (Unit {0}))
      → r.1 ≡ ok tt
      → Verdict table argon2 id current new salt now u w r
      → Changed table argon2 id current new salt now u w r.0
  Verdict-ok id current new salt now u w (v, ok _) e x = x
  Verdict-ok id current new salt now u w (v, err _) e x = cc e

  -- The row of a session that signs an admin in, and whose user that is.
  bearer-row :
      (id : Text) (now : ℕ) (u : AdminUser) (w : World table)
      → bearer table (some id) now w ≡ some u
      → (s : AdminSession) × (find_unique id w.sessions ≡ some s)
        × (text_eq u.id s.user_id ≡ true)
        × (w.admin ≡ some u)
        × (holder table now (some u) (some s) ≡ some u)
  bearer-row id now u w e = elim (Option-cases (find_unique id w.sessions)) [
    | inl lost ↦ cc (e, ap (holder table now w.admin) lost, gone-holder table argon2 now w.admin)
    | inr (s, found) ↦
        let held : holder table now w.admin (some s) ≡ some u =
          sym (ap (holder table now w.admin) found) ∙ e in
        let a = holder-admin table argon2 now w.admin (some s) u held in
        let same : holder table now (some u) (some s) ≡ some u =
          sym (ap (λ admin. holder table now admin (some s)) a) ∙ held in
        (s, found, ground (arith, same), a, same)
  ]

  -- The row of the session of a request that its cookie signs in.
  kept_session-row :
      (id : Text) (now : ℕ) (u : AdminUser) (w : World table)
      → w.context ≡ none
      → bearer table (some id) now w ≡ some u
      → (s : AdminSession) × (find_unique id
            (resolve_request_auth table true (some id) now w).0.sessions
          ≡ some s)
        × (text_eq u.id s.user_id ≡ true)
  kept_session-row id now u w fresh e =
      let x = resolve_request_auth-Resolves table true (some id) now w fresh in
      let (s, found, owner, a, same) = bearer-row id now u w e in
      (
        touched true now s,
        x.rows id ∙ rw (a, found, (text_eq_iff id id).1 refl, same) refl,
        elim (Bool-cases (ltb now (s.last_seen_at + session_touch_interval_ms))) [
          | inl early ↦ rw early owner
          | inr late ↦ rw late owner
        ],
      )

  change_password-Changed :
      (id : Text) (current new : Text) (salt now : ℕ) (u : AdminUser) (w : World table)
      → w.context ≡ none
      → bearer table (some id) now w ≡ some u
      → (change_password table argon2 (some id) current new salt now w).1 ≡ ok tt
      → Changed table argon2 id current new salt now u
          (resolve_request_auth table true (some id) now w).0
          (change_password table argon2 (some id) current new salt now w).0
  change_password-Changed id current new salt now u w fresh e done =
      let r = resolve_request_auth table true (some id) now w in
      let (s, row, owner) = kept_session-row id now u w fresh e in
      let step = change_password-check_change table argon2 id current new salt now u w fresh e in
      Verdict-ok id current new salt now u r.0
        (change_password table argon2 (some id) current new salt now w) done
        (subst (λ c. Verdict table argon2 id current new salt now u r.0 c) (sym step)
          (check_change-Verdict table argon2 id current new salt now u s r.0 row))

  changed_row-holder :
      (now t : ℕ) (u : AdminUser) (password : Text) (salt : ℕ) (s : AdminSession)
      → text_eq u.id s.user_id ≡ true
      → t < now + session_ttl_ms
      → holder table t
          (some (changed_admin table argon2 u password salt))
          (some (changed_row table argon2 u now s))
        ≡ some (changed_admin table argon2 u password salt)
  changed_row-holder now t u password salt s owner soon = ground (arith, owner, soon)

  revoked-holder :
      (t : ℕ) (u : AdminUser) (password : Text) (salt : ℕ) (row : Option AdminSession)
      → holder table t
          (some (changed_admin table argon2 u password salt))
          (reject (λ s. text_eq s.user_id u.id) row)
        ≡ none
  revoked-holder t u password salt none = refl
  revoked-holder t u password salt (some s) =
      ground (arith, text_eq_iff u.id s.user_id, text_eq_iff s.user_id u.id)

  -- A change of the password that succeeds was given the current password; after it every other
  -- session cookie is anonymous at any time, and the session that asked for it signs the admin in,
  -- with the new version, until it expires.
  pub change_password_revokes :
      (id : Text) (current new : Text) (salt now : ℕ) (u : AdminUser) (w : World table)
      → w.context ≡ none
      → bearer table (some id) now w ≡ some u
      → (change_password table argon2 (some id) current new salt now w).1 ≡ ok tt
      → let v = next (change_password table argon2 (some id) current new salt now w).0 in
        (argon2.verify u.password_hash current ≡ true)
        × (((respond : Bool) (j : Text) (t : ℕ)
              → text_eq id j ≡ false
              → (resolve_request_auth table respond (some j) t v).1 ≡ ok (anonymous false))
            × ((respond : Bool) (t : ℕ)
                → t < now + session_ttl_ms
                → (resolve_request_auth table respond (some id) t v).1
                  ≡ ok (signed_in (admin_of (changed_admin table argon2 u new salt)) id)))
  change_password_revokes id current new salt now u w fresh e done =
      let v = (change_password table argon2 (some id) current new salt now w).0 in
      let x = change_password-Changed id current new salt now u w fresh e done in
      let (s, row, owner) = kept_session-row id now u w fresh e in
      (
        x.verified,
        (
          λ respond j t other.
              stranger-answer table argon2 respond j t v (
                rw (x.admin, x.others j other)
                  (revoked-holder t u new salt
                    (find_unique j (resolve_request_auth table true (some id) now w).0.sessions)))
              ∙ rw x.admin refl,
          λ respond t soon.
              let u' = changed_admin table argon2 u new salt in
              let signs_in : bearer table (some id) t v ≡ some u' =
                rw (x.admin, x.own, row) (changed_row-holder now t u new salt s owner soon) in
              (resolve_request_auth-Resolves table respond (some id) t (next v) refl).answer
              ∙ ap (λ user. ok (context_of table (some id) v.admin user)) signs_in,
        ),
      )
