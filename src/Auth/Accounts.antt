-- ===== src/Auth/Accounts.antt =====
-- The account's handlers of apps/sp-api/src/auth/auth.service.ts: bootstrap, login, logout and the
-- change of the password, over the session table and argon2 as parameters. A handler reads the
-- clock once, as `now`; `salt` is argon2's, and `new_id` the id that the database gives a new row.
use stasharr_portal.Prelude.Text.{Text, text_eq, eq_text, trim}
use stasharr_portal.Prelude.{ℕ, ◌+◌, true, not, ◌&&◌, Option, none, some, if◌then◌else◌, is_some}
pub mod Bootstrap
pub mod Login
pub mod Logout
pub mod Refused
pub mod Password
pub mod Revocation
mod Tests
use mathlib.Core.Option
use stasharr_portal.Prelude.Results.{
  ◌>>=◌, ◌>>◌, Handler, return, throw, err, conflict, ok, unauthorized, internal, bad_request,
}
use stasharr_portal.Database.{Table}
use stasharr_portal.Auth.LoginAttempts.{Attempts, assert_allowed, record_failure, clear}
use stasharr_portal.Auth.Records.{
  AdminUser, AdminSession, AuthContext, AuthStatus, CookieOp, set_cookie, clear_cookie, admin_of,
  anonymous, signed_in, Argon2, session_ttl_ms, normalize_username, ip_key, username_key,
  AuthenticatedAdmin,
}
use stasharr_portal.Auth.Sessions.{
  World, Action, write_context, push_cookie, resolve_request_auth, require_authenticated_request,
}

abbrev pub username_of : Option AuthenticatedAdmin → Option Text
username_of none = none
username_of (some u) = some u.username

-- `toStatus`
abbrev pub to_status : AuthContext → AuthStatus
to_status c = record {
  bootstrap_required = c.bootstrap_required;
  authenticated = c.authenticated;
  username = username_of c.user;
}

abbrev pub both_keys : Text → Text → (Text → Attempts → Attempts) → Attempts → Attempts
both_keys ip username f m = f (username_key ip username) (f (ip_key ip) m)

module _ (table : Table Text AdminSession) (argon2 : Argon2) where
  open table use {Rows, find_unique, create, update, delete_many}

  -- An action of the login throttle, on the map that it keeps.
  throttle : Handler Attempts (Unit {0}) → Action table (Unit {0})
  throttle f w = let (m, r) = f w.attempts in (record w { attempts = m }, r)

  -- `assertLoginAllowed`
  assert_login_allowed : Text → Text → ℕ → Action table (Unit {0})
  unfolding throttle
  assert_login_allowed ip username now = do
    throttle (assert_allowed (ip_key ip) now)
    throttle (assert_allowed (username_key ip username) now)

  -- `recordLoginFailure`, and the exception that follows it.
  fail_login : {A : Type 0} → Text → Text → ℕ → Action table A
  fail_login ip username now w = (
    record w { attempts = both_keys ip username (λ key m. record_failure key now m) w.attempts },
    err unauthorized,
  )

  -- `startSession`; the row's own columns `id`, `lastSeenAt` are the database's.
  start_session : Text → AdminUser → ℕ → Action table Text
  start_session new_id u now w =
      elim (create new_id
        (record {
          user_id = u.id;
          session_version = u.session_version;
          expires_at = now + session_ttl_ms;
          last_seen_at = now;
        })
        w.sessions) [
          | none ↦ (w, err internal)
          | some rows ↦ (
            push_cookie table (set_cookie new_id (now + session_ttl_ms))
                (record w { sessions = rows }),
            ok new_id,
          )
        ]

  -- The end of `login` and `bootstrapAdmin`.
  pub enter : Text → AdminUser → ℕ → Action table AuthStatus
  unfolding start_session
  enter new_id u now = do
    id ← start_session new_id u now
    c ← write_context table (signed_in (admin_of u) id)
    return (to_status c)

  pub new_admin : Text → Text → Text → ℕ → AdminUser
  new_admin id username password salt = record {
    id = id;
    username = trim username;
    normalized_username = normalize_username username;
    password_hash = argon2.hash salt password;
    session_version = 1;
  }

  -- `bootstrapAdmin`; a second row would break the unique `singletonKey`.
  unfoldable pub bootstrap_admin :
      (user_id new_id : Text) (username password : Text) (salt now : ℕ) → Action table AuthStatus
  unfolding enter new_admin
  bootstrap_admin user_id new_id username password salt now w = elim w.admin [
    | some _ ↦ (w, err conflict)
    | none ↦
        let u = new_admin user_id username password salt in
        enter new_id u now (record w { admin = some u })
  ]

  -- The admin with that normalized username, or the refusal of an unknown one.
  pub check_password : Text → Text → Text → Text → ℕ → Option AdminUser → Action table AuthStatus
  unfolding enter fail_login
  check_password new_id ip username password now none w = (w, err conflict)
  check_password new_id ip username password now (some u) w =
      if text_eq u.normalized_username username && argon2.verify u.password_hash password
      then enter new_id u now
          (record w { attempts = both_keys ip username (λ key m. clear key m) w.attempts })
      else fail_login ip username now w

  unfoldable pub login :
      (new_id ip : Text) (username password : Text) (now : ℕ) → Action table AuthStatus
  unfolding check_password assert_login_allowed
  login new_id ip username password now = do
    assert_login_allowed ip (normalize_username username) now
    λ w. check_password new_id ip (normalize_username username) password now w.admin w

  -- `logout`, from the context that was resolved.
  leave : AuthContext → Action table AuthStatus
  leave c w =
      let rows : Rows = elim c.session_id [
        | none ↦ w.sessions
        | some id ↦ delete_many (λ k _. text_eq k id) w.sessions
      ] in
      let v = push_cookie table clear_cookie (record w { sessions = rows }) in
      let gone = anonymous (not (is_some w.admin)) in
      (record v { context = some gone }, ok (to_status gone))

  unfoldable pub logout : Option Text → ℕ → Action table AuthStatus
  unfolding leave
  logout cookie now = do c ← resolve_request_auth table true cookie now; leave c

  -- The transaction of `changePassword` and what follows it: all three writes, or none.
  replace_password :
      AuthenticatedAdmin → Text → AdminUser → Text → (salt now : ℕ) → Action table (Unit {0})
  replace_password user session_id u password salt now w =
      let version = u.session_version + 1 in
      elim (update session_id
        (λ row. record row {
          session_version = version;
          expires_at = now + session_ttl_ms;
          last_seen_at = now;
        })
        w.sessions) [
          | none ↦ (w, err internal)
          | some rows ↦
              let v = record w {
                admin = some (record u {
                  password_hash = argon2.hash salt password;
                  session_version = version;
                });
                sessions =
                    delete_many (λ k row. text_eq row.user_id u.id && not (text_eq k session_id))
                      rows;
                context = some (signed_in (record user { session_version = version }) session_id);
              } in
              (push_cookie table (set_cookie session_id (now + session_ttl_ms)) v, ok tt)
        ]

  pub check_change :
      AuthenticatedAdmin
      → Text
      → Option AdminUser
      → (current new : Text) → (salt now : ℕ) → Action table (Unit {0})
  unfolding replace_password
  check_change user session_id none current new salt now = throw unauthorized
  check_change user session_id (some u) current new salt now =
      if not (text_eq u.id user.id)
      then throw unauthorized
      else if not (argon2.verify u.password_hash current)
      then throw unauthorized
      else if text_eq current new
      then throw bad_request
      else replace_password user session_id u new salt now

  unfoldable pub change_password :
      Option Text → (current new : Text) → (salt now : ℕ) → Action table (Unit {0})
  unfolding check_change
  change_password cookie current new salt now = do
    (user, id) ← require_authenticated_request table true cookie now
    λ w. check_change user id w.admin current new salt now w

  unfoldable pub get_status : Option Text → ℕ → Action table AuthStatus
  get_status cookie now = do c ← resolve_request_auth table true cookie now; return (to_status c)

-- What a test of the handlers unfolds.
unfoldable pub account_handlers : Unit {0}
unfolding bootstrap_admin login logout change_password get_status
account_handlers = tt
