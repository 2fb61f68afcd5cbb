-- ===== src/Auth/Accounts/Login.antt =====
-- What a login does to the accounts, and the sessions that it starts.
use mathlib.Core.Option.{some-injective}
use stasharr_portal.Prelude.Results.{Result, Result-cases, HttpError}
use stasharr_portal.Prelude.Text.{Text, eq_text, text_eq, text_eq_iff}
use stasharr_portal.Prelude.{
  ℕ, ◌≡◌, refl, inl, inr, Option, none, ◌+◌, ◌⊎◌, some, ◌∷◌, if◌then◌else◌, true, ◌&&◌, Bool-cases,
  ◌<◌, sym, ◌∙◌, Bool, arith, ap,
}
use stasharr_portal.Database.{Table}
use stasharr_portal.Database.Updates.{create_fresh}
use stasharr_portal.Auth.LoginAttempts.{Attempts, assert_allowed}
use stasharr_portal.Auth.Records.{
  AdminUser, AdminSession, Argon2, admin_of, signed_in, session_ttl_ms, normalize_username, ip_key,
  AuthStatus,
}
use stasharr_portal.Auth.Sessions.{World, resolve_request_auth}
use stasharr_portal.Auth.Sessions.Verdict.{holder, bearer, context_of}
use stasharr_portal.Auth.Sessions.Resolve.{resolve_request_auth-Resolves}
use stasharr_portal.Auth.Accounts.{
  assert_login_allowed, throttle, check_password, enter, start_session, fail_login, login,
  to_status, err, set_cookie, ok, push_cookie, both_keys, clear,
}

-- The next request: it starts with no context.
abbrev pub next : {table : Table Text AdminSession} → World table → World table
next w = record w { context = none }

module _ (table : Table Text AdminSession) (argon2 : Argon2) where
  open table use {Rows, find_unique}

  assert_login_allowed-World :
      (ip username : Text) (now : ℕ) (w : World table)
      → let r = assert_login_allowed table argon2 ip username now w in
        r ≡ (record w { attempts = r.0.attempts }, r.1)
  unfolding assert_login_allowed throttle
  assert_login_allowed-World ip username now w =
      elim (Result-cases (assert_allowed (ip_key ip) now w.attempts).1) [
        | inl (_, e) ↦ rw (e, assert_login_allowed) refl
        | inr (_, e) ↦ rw (e, assert_login_allowed) refl
      ]

  -- A login that the throttle refuses, or lets through to the check of the password.
  pub login-cases :
      (new_id ip : Text) (username password : Text) (now : ℕ) (w : World table)
      → (m : Attempts) × (((e : HttpError) × (login table argon2 new_id ip username password now w
              ≡ (record w { attempts = m }, err e)))
          ⊎ (login table argon2 new_id ip username password now w
              ≡ check_password table argon2 new_id ip
                  (normalize_username username)
                  password
                  now
                  w.admin
                  (record w { attempts = m })))
  unfolding login
  login-cases new_id ip username password now w =
      let e = assert_login_allowed-World ip (normalize_username username) now w in
      let r = assert_login_allowed table argon2 ip (normalize_username username) now w in
      let m = r.0.attempts in
      elim (Result-cases r.1) [
        | inl (_, allowed) ↦ (m, inr (rw (e, allowed, login) refl))
        | inr (x, refused) ↦ (m, inl (x, rw (e, refused, login) refl))
      ]

  -- The row of a session that starts at the time `now`.
  abbrev pub started : AdminUser → ℕ → AdminSession
  started u now = record {
    user_id = u.id;
    session_version = u.session_version;
    expires_at = now + session_ttl_ms;
    last_seen_at = now;
  }

  -- The world after the start of a session, with the rows `rows`.
  abbrev pub entered : Text → AdminUser → ℕ → Rows → World table → World table
  entered new_id u now rows w = record w {
    sessions = rows;
    context = some (signed_in (admin_of u) new_id);
    cookies = set_cookie new_id (now + session_ttl_ms) ∷ w.cookies;
  }

  start_session-fresh :
      (new_id : Text) (u : AdminUser) (now : ℕ) (w : World table) (rows : Rows)
      → table.create new_id (started u now) w.sessions ≡ some rows
      → start_session table argon2 new_id u now w ≡ (
        push_cookie table (set_cookie new_id (now + session_ttl_ms)) (record w { sessions = rows }),
        ok new_id,
      )
  unfolding start_session
  start_session-fresh new_id u now w rows done = rw (done, start_session) refl

  pub enter_fresh :
      (new_id : Text) (u : AdminUser) (now : ℕ) (w : World table)
      → find_unique new_id w.sessions ≡ none
      → (rows : Rows) × (enter table argon2 new_id u now w
          ≡ (entered new_id u now rows w, ok (to_status (signed_in (admin_of u) new_id))))
        × ((j : Text)
            → find_unique j rows
              ≡ (if text_eq new_id j then some (started u now) else find_unique j w.sessions))
  unfolding enter
  enter_fresh new_id u now w free =
      let (rows, done, found) = create_fresh table new_id (started u now) w.sessions free in
      let begun = start_session-fresh new_id u now w rows done in
      (rows, rw (begun, enter) refl, found)

  -- What a login that succeeds shows: the password was the admin's, and the table has gained the
  -- session `new_id`.
  record Entered (new_id username password : Text) (now : ℕ) (w v : World table) : Type 0 where
    pub user : AdminUser
    pub is_admin : w.admin ≡ some user
    pub same_admin : v.admin ≡ some user
    pub same_name : user.normalized_username ≡ normalize_username username
    pub verified : argon2.verify user.password_hash password ≡ true
    pub rows :
        (j : Text)
        → find_unique j v.sessions
          ≡ (if text_eq new_id j then some (started user now) else find_unique j w.sessions)
    pub cookies : v.cookies ≡ set_cookie new_id (now + session_ttl_ms) ∷ w.cookies

  -- A verdict on an answered login.
  abbrev Verdict :
      (new_id username password : Text) (now : ℕ) (w : World table)
      → World table × Result AuthStatus
      → Type 0
  Verdict new_id username password now w (v, err e) = Unit
  Verdict new_id username password now w (v, ok status) = Entered new_id username password now w v

  check_password-Verdict :
      (new_id ip username password : Text) (now : ℕ) (m : Attempts) (w : World table)
      (admin : Option AdminUser)
      → find_unique new_id w.sessions ≡ none
      → w.admin ≡ admin
      → Verdict new_id username password now w (
          check_password table argon2 new_id ip
            (normalize_username username)
            password
            now
            admin
            (record w { attempts = m }))
  unfolding check_password fail_login
  check_password-Verdict new_id ip username password now m w none free a = tt
  check_password-Verdict new_id ip username password now m w (some u) free a =
      elim (Bool-cases (
        text_eq u.normalized_username (normalize_username username)
        && argon2.verify u.password_hash password)) [
          | inl good ↦
              let v = record w {
                attempts = both_keys ip (normalize_username username) (λ key n. clear key n) m;
              } in
              let (rows, e, found) = enter_fresh new_id u now v free in
              simp (good, e, check_password)
                (record {
                  user = u;
                  is_admin = a;
                  same_admin = a;
                  same_name =
                      (text_eq_iff u.normalized_username (normalize_username username)).0
                        (ground arith);
                  verified = ground arith;
                  rows = found;
                  cookies = refl;
                })
          | inr bad ↦ simp (bad, check_password) tt
        ]

  login-Verdict :
      (new_id ip username password : Text) (now : ℕ) (w : World table)
      → find_unique new_id w.sessions ≡ none
      → Verdict new_id username password now w
          (login table argon2 new_id ip username password now w)
  login-Verdict new_id ip username password now w free =
      let (m, c) = login-cases new_id ip username password now w in
      elim c [
        | inl (x, e) ↦ simp e tt
        | inr e ↦
            simp e (check_password-Verdict new_id ip username password now m w w.admin free refl)
      ]

  Verdict-ok :
      (new_id username password : Text) (now : ℕ) (w : World table)
      (r : World table × Result AuthStatus) (status : AuthStatus)
      → r.1 ≡ ok status
      → Verdict new_id username password now w r
      → Entered new_id username password now w r.0
  Verdict-ok new_id username password now w (v, ok s) status e x = x
  Verdict-ok new_id username password now w (v, err s) status e x = cc e

  -- A session that has just started signs its admin in.
  pub started-holder :
      (u : AdminUser) (now t : ℕ)
      → t < now + session_ttl_ms
      → holder table t (some u) (some (started u now)) ≡ some u
  started-holder u now t soon = ground (arith, text_eq_iff u.id u.id)

  Entered-bearer :
      (new_id username password : Text) (now t : ℕ) (w v : World table)
      (x : Entered new_id username password now w v)
      → t < now + session_ttl_ms
      → bearer table (some new_id) t v ≡ some x.user
  Entered-bearer new_id username password now t w v x soon =
      let row : find_unique new_id v.sessions ≡ some (started x.user now) =
        x.rows new_id ∙ rw ((text_eq_iff new_id new_id).1 refl) refl in
      rw (row, x.same_admin) (started-holder x.user now t soon)

  -- After a login that succeeds under a session id that was free, the password was the admin's,
  -- and a later request with that cookie is signed in as the admin until the session expires.
  pub login_signs_in :
      (new_id ip username password : Text) (now t : ℕ) (respond : Bool) (u : AdminUser)
      (status : AuthStatus) (w : World table)
      → find_unique new_id w.sessions ≡ none
      → w.admin ≡ some u
      → (login table argon2 new_id ip username password now w).1 ≡ ok status
      → t < now + session_ttl_ms
      → (argon2.verify u.password_hash password ≡ true)
        × ((resolve_request_auth table respond
              (some new_id)
              t
              (next (login table argon2 new_id ip username password now w).0)).1
            ≡ ok (signed_in (admin_of u) new_id))
  login_signs_in new_id ip username password now t respond u status w free a answered soon =
      let r = login table argon2 new_id ip username password now w in
      let x =
        Verdict-ok new_id username password now w r status answered
          (login-Verdict new_id ip username password now w free) in
      let same : u ≡ x.user = some-injective u x.user (sym a ∙ x.is_admin) in
      let later = resolve_request_auth-Resolves table respond (some new_id) t (next r.0) refl in
      let signs_in = Entered-bearer new_id username password now t w r.0 x soon in
      (
        rw same x.verified,
        later.answer
            ∙ ap (λ user. ok (context_of table (some new_id) r.0.admin user))
                (signs_in ∙ ap some (sym same)),
      )
