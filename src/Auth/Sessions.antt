-- ===== src/Auth/Sessions.antt =====
-- How a request is authenticated, apps/sp-api/src/auth/auth.service.ts and admin-session.guard.ts,
-- over the session table as a parameter. A handler reads the clock once, as `now`.
use stasharr_portal.Prelude.Results.{◌>>=◌, ◌>>◌}
use stasharr_portal.Prelude.Results.{Handler, return, throw, ok, unauthorized, err, internal}
use stasharr_portal.Prelude.Text.{Text, text_eq, eq_text}
use stasharr_portal.Prelude.{
  ℕ, ◌+◌, Bool, true, false, not, ◌||◌, Option, none, some, List, ◌∷◌, ltb, leb, ◌==◌,
  if◌then◌else◌,
}
pub mod Resolve
pub mod Guard
pub mod Verdict
use mathlib.Core.Option
use stasharr_portal.Database.{Table}
use stasharr_portal.Auth.LoginAttempts.{Attempts, assert_allowed, record_failure, clear}
use stasharr_portal.Auth.Records.{
  AdminUser, AdminSession, AuthContext, AuthStatus, CookieOp, set_cookie, clear_cookie, admin_of,
  anonymous, signed_in, Argon2, session_ttl_ms, session_touch_interval_ms, normalize_username,
  ip_key, username_key, AuthenticatedAdmin,
}

module _ (table : Table Text AdminSession) where
  open table use {Rows, find_unique, create, update, delete_many}

  -- The database, the throttle, and of the request at hand its cached context and the changes to
  -- the response's cookie, newest first.
  pub record World : Type 0 where
    pub admin : Option AdminUser
    pub sessions : Rows
    pub attempts : Attempts
    pub context : Option AuthContext
    pub cookies : List CookieOp

  abbrev pub Action : Type 0 → Type 0
  Action A = Handler World A

  -- `writeCachedRequestAuth`
  abbrev pub write_context : AuthContext → Action AuthContext
  write_context c w = (record w { context = some c }, ok c)

  abbrev pub push_cookie : CookieOp → World → World
  push_cookie op w = record w { cookies = op ∷ w.cookies }

  -- The row and the user of a session, `loadSessionRecord`.
  abbrev user_of : AdminSession → Option AdminUser → Option AdminUser
  user_of s none = none
  user_of s (some u) = if text_eq u.id s.user_id then some u else none

  -- `clearSessionCookie`, where there is a response.
  abbrev forget_cookie : Bool → World → World
  forget_cookie respond w = if respond then push_cookie clear_cookie w else w

  pub drop_session : Text → World → World
  drop_session id w = record w { sessions = delete_many (λ k _. text_eq k id) w.sessions }

  -- The refusal of a stale session: its row goes, and its cookie.
  pub refuse_session : Bool → Text → Action AuthContext
  refuse_session respond id w =
      write_context (anonymous false) (forget_cookie respond (drop_session id w))

  -- `touchSessionIfNeeded`
  pub touch_session : Bool → Text → AdminSession → ℕ → AuthContext → Action AuthContext
  touch_session respond id s now c w =
      if not respond || ltb now (s.last_seen_at + session_touch_interval_ms)
      then (w, ok c)
      else (elim (update id
          (λ row. record row { expires_at = now + session_ttl_ms; last_seen_at = now })
          w.sessions) [
            | none ↦ (w, err internal)
            | some rows ↦ (
              push_cookie (set_cookie id (now + session_ttl_ms)) (record w { sessions = rows }),
              ok c,
            )
          ])

  -- The checks on a session that was found.
  pub check_session : Bool → Text → ℕ → AdminSession → Option AdminUser → Action AuthContext
  check_session respond id now s admin w =
      if leb s.expires_at now then refuse_session respond id w else (elim (user_of s admin) [
        | none ↦ refuse_session respond id w
        | some u ↦
            if s.session_version == u.session_version
            then (let c = signed_in (admin_of u) id in
                touch_session respond id s now c (record w { context = some c }))
            else refuse_session respond id w
      ])

  pub resolve_session : Bool → Option Text → ℕ → Action AuthContext
  resolve_session respond none now w = write_context (anonymous false) w
  resolve_session respond (some id) now w = elim (find_unique id w.sessions) [
    | none ↦ write_context (anonymous false) (forget_cookie respond w)
    | some s ↦ check_session respond id now s w.admin w
  ]

  pub resolve_fresh : Bool → Option Text → ℕ → Option AdminUser → Action AuthContext
  resolve_fresh respond cookie now none w = write_context (anonymous true) (forget_cookie respond w)
  resolve_fresh respond cookie now (some _) w = resolve_session respond cookie now w

  -- `resolveRequestAuth`; `cookie` is the session id that the request's signed cookie holds.
  unfoldable pub resolve_request_auth : Bool → Option Text → ℕ → Action AuthContext
  resolve_request_auth respond cookie now w = elim w.context [
    | some c ↦ (w, ok c)
    | none ↦ resolve_fresh respond cookie now w.admin w
  ]

  unfoldable pub require_parts : AuthContext → Action (AuthenticatedAdmin × Text)
  require_parts c = elim c.user [
    | none ↦ throw unauthorized
    | some u ↦ elim c.session_id [
      | none ↦ throw unauthorized
      | some id ↦ if c.authenticated then return (u, id) else throw unauthorized
    ]
  ]

  -- `requireAuthenticatedRequest`
  unfoldable pub require_authenticated_request :
      Bool → Option Text → ℕ → Action (AuthenticatedAdmin × Text)
  unfolding require_parts
  require_authenticated_request respond cookie now = do
    c ← resolve_request_auth respond cookie now
    require_parts c

  -- `AdminSessionGuard.canActivate`
  unfoldable pub can_activate : Bool → Option Text → ℕ → Action Bool
  can_activate is_public cookie now = if is_public then return true else (do
    c ← resolve_request_auth true cookie now
    if c.authenticated then return true else throw unauthorized)

-- What a test of the handlers unfolds.
unfoldable pub handlers : Unit {0}
unfolding drop_session refuse_session touch_session check_session resolve_session resolve_fresh
    resolve_request_auth require_authenticated_request can_activate
handlers = tt
