-- ===== src/Auth/Records.antt =====
-- The rows, the request's context and the outside services of apps/sp-api/src/auth/auth.service.ts
-- and auth.types.ts. Prisma's `AdminUser` table holds at most one row, since `singletonKey` is
-- unique and every row has 1 there: it is an option.
use stasharr_portal.Prelude.Text.{Text, text, eq_text, trim, to_lower}
use stasharr_portal.Prelude.{ℕ, ◌≡◌, Bool, true, false, Option, none, some, ◌++◌}

pub record AdminUser : Type 0 where
  pub id : Text
  pub username : Text
  pub normalized_username : Text
  pub password_hash : Text
  pub session_version : ℕ

-- A row of `AdminSession`, without its key `id`.
pub record AdminSession : Type 0 where
  pub user_id : Text
  pub session_version : ℕ
  pub expires_at : ℕ
  pub last_seen_at : ℕ

pub record AuthenticatedAdmin : Type 0 where
  pub id : Text
  pub username : Text
  pub normalized_username : Text
  pub session_version : ℕ

pub record AuthContext : Type 0 where
  pub bootstrap_required : Bool
  pub authenticated : Bool
  pub user : Option AuthenticatedAdmin
  pub session_id : Option Text

pub record AuthStatus : Type 0 where
  pub bootstrap_required : Bool
  pub authenticated : Bool
  pub username : Option Text

-- What a handler does to the response's cookie.
pub data CookieOp : Type 0 where
  set_cookie : Text → ℕ → CookieOp
  clear_cookie : CookieOp

abbrev pub admin_of : AdminUser → AuthenticatedAdmin
admin_of u = record {
  id = u.id;
  username = u.username;
  normalized_username = u.normalized_username;
  session_version = u.session_version;
}

-- The context of a request with no valid session.
abbrev pub anonymous : Bool → AuthContext
anonymous bootstrap_required = record {
  bootstrap_required = bootstrap_required;
  authenticated = false;
  user = none;
  session_id = none;
}

abbrev pub signed_in : AuthenticatedAdmin → Text → AuthContext
signed_in user session_id = record {
  bootstrap_required = false;
  authenticated = true;
  user = some user;
  session_id = some session_id;
}

-- The argon2 library: a hash of a password under a salt, and its check.
pub record Argon2 : Type 0 where
  pub hash : ℕ → Text → Text
  pub verify : Text → Text → Bool
  pub verify-hash : (salt : ℕ) (password : Text) → verify (hash salt password) password ≡ true

abbrev pub session_ttl_ms : ℕ
session_ttl_ms = 2592000000

abbrev pub session_touch_interval_ms : ℕ
session_touch_interval_ms = 900000

unfoldable pub normalize_username : Text → Text
unfolding trim to_lower
normalize_username s = to_lower (trim s)

abbrev pub ip_key : Text → Text
ip_key ip = text "ip:" ++ ip

abbrev pub username_key : Text → Text → Text
username_key ip username = text "login:" ++ (ip ++ (text ":" ++ username))
