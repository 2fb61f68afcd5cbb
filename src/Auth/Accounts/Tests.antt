-- ===== src/Auth/Accounts/Tests.antt =====
-- Runs of the account's handlers on a table in memory, and the theorems at inputs that meet their
-- hypotheses.
use stasharr_portal.Prelude.Dict.{get, put, remove}
use stasharr_portal.Prelude.Text.{Text, text, text_eq, text_eq_iff, eq_text}
use stasharr_portal.Prelude.{◌≡◌, refl, true, none, some, [], arith, ℕ, ◌+◌, ◌<◌, Bool, false}
use stasharr_portal.Database.{Table}
use stasharr_portal.Auth.Sessions.Resolve.{Resolves, resolve_request_auth-Resolves}
use stasharr_portal.Auth.Sessions.Guard.{can_activate-bearer}
use stasharr_portal.Auth.Accounts.Logout.{logout_ends_session}
use stasharr_portal.Auth.Accounts.Password.{changed_admin}
use stasharr_portal.Auth.Accounts.Revocation.{change_password_revokes}
use stasharr_portal.Database.Memory.{memory, create_row, update_row, delete_rows}
use stasharr_portal.Auth.LoginAttempts.{assert_allowed, record_failure, clear}
use stasharr_portal.Auth.Records.{
  AdminUser, AdminSession, Argon2, admin_of, signed_in, normalize_username,
}
use stasharr_portal.Auth.Sessions.{World, handlers, resolve_request_auth, can_activate}
use stasharr_portal.Auth.Sessions.Verdict.{bearer}
use stasharr_portal.Auth.Accounts.{
  internal, bootstrap_admin, login, account_handlers, err, ok, unauthorized, AuthStatus, logout,
  change_password, anonymous, session_ttl_ms,
}
use stasharr_portal.Auth.Accounts.Bootstrap.{Bootstrapped, bootstrap_once}
use stasharr_portal.Auth.Accounts.Login.{next, login_signs_in}
use stasharr_portal.Auth.Accounts.Refused.{IsUnentered, login_refused}

abbrev table : Table Text AdminSession
table = memory Text AdminSession

-- A hash that is the password itself.
abbrev plain : Argon2
plain = record {
  hash = λ salt password. password;
  verify = text_eq;
  verify-hash = λ salt password. (text_eq_iff password password).1 refl;
}

all_handlers : Unit {0}
unfolding handlers account_handlers assert_allowed record_failure clear normalize_username get put
    remove create_row update_row delete_rows text_eq
all_handlers = tt

abbrev empty : World table
empty = record { admin = none; sessions = []; attempts = []; context = none; cookies = [] }

abbrev boot : World table
boot =
    next
      (bootstrap_admin table plain (text "u1") (text "s1") (text " Root ") (text "old") 7 1000
        empty).0

abbrev admin_row : AdminUser
admin_row = record {
  id = text "u1";
  username = text "Root";
  normalized_username = text "root";
  password_hash = text "old";
  session_version = 1;
}

abbrev home_ip : Text
home_ip = text "10.0.0.7"

abbrev twice : World table
twice = next (login table plain (text "s2") home_ip (text "ROOT") (text "old") 2000 boot).0

bootstrapped : boot.admin ≡ some admin_row
unfolding all_handlers
bootstrapped = refl

wrong_password :
    (login table plain (text "s2") home_ip (text "root") (text "new") 2000 boot).1
    ≡ err unauthorized
unfolding all_handlers
wrong_password = refl

bearers :
    (bearer table (some (text "s1")) 3000 twice ≡ some admin_row)
    × (bearer table (some (text "s2")) 3000 twice ≡ some admin_row)
    × (bearer table (some (text "s3")) 3000 twice ≡ none)
unfolding all_handlers
bearers = (refl, refl, refl)

abbrev ok_status : AuthStatus
ok_status = record {
  bootstrap_required = false;
  authenticated = true;
  username = some (text "Root");
}

free : table.find_unique (text "s1") empty.sessions ≡ none
unfolding all_handlers
free = refl

bootstrap_once_example :
    Bootstrapped table plain (text "u1") (text "s1") (text " Root ") (text "old") 5000 true boot
bootstrap_once_example =
    bootstrap_once table plain (text "u1") (text "s1") (text " Root ") (text "old") 7 1000 5000 true
      empty free refl (omega arith)

login_signs_in_example :
    (text_eq (text "old") (text "old") ≡ true)
    × ((resolve_request_auth table false (some (text "s2")) 5000 twice).1
        ≡ ok (signed_in (admin_of admin_row) (text "s2")))
unfolding all_handlers
login_signs_in_example =
    login_signs_in table plain (text "s2") home_ip (text "ROOT") (text "old") 2000 5000 false
      admin_row ok_status boot refl refl refl (omega arith)

login_refused_example :
    IsUnentered table plain boot
      (login table plain (text "s2") home_ip (text "root") (text "new") 2000 boot).0
login_refused_example =
    login_refused table plain (text "s2") home_ip (text "root") (text "new") 2000 unauthorized boot
      wrong_password

-- Where the id of the new session is taken, the password is right and the login fails all the same.
taken_id :
    (login table plain (text "s1") home_ip (text "root") (text "old") 2000 boot).1 ≡ err internal
unfolding all_handlers
taken_id = refl

logout_ends_session_example :
    (resolve_request_auth table true
      (some (text "s2"))
      4000
      (next (logout table plain (some (text "s2")) 3000 twice).0)).1
    ≡ ok (anonymous false)
unfolding all_handlers
logout_ends_session_example = logout_ends_session table plain true (text "s2") 3000 4000 twice refl

abbrev renewed : World table
renewed =
    next (change_password table plain (some (text "s2")) (text "old") (text "new") 8 3000 twice).0

change_password_revokes_example :
    (text_eq (text "old") (text "old") ≡ true)
    × (((respond : Bool) (j : Text) (t : ℕ)
          → text_eq (text "s2") j ≡ false
          → (resolve_request_auth table respond (some j) t renewed).1 ≡ ok (anonymous false))
        × ((respond : Bool) (t : ℕ)
            → t < 3000 + session_ttl_ms
            → (resolve_request_auth table respond (some (text "s2")) t renewed).1
              ≡ ok (
                  signed_in
                    (admin_of (changed_admin table plain admin_row (text "new") 8))
                    (text "s2"))))
unfolding all_handlers
change_password_revokes_example =
    change_password_revokes table plain (text "s2") (text "old") (text "new") 8 3000 admin_row twice
      refl refl refl

resolve_request_auth-Resolves_example :
    Resolves table true
      (some (text "s1"))
      4000
      twice
      (resolve_request_auth table true (some (text "s1")) 4000 twice)
unfolding all_handlers
resolve_request_auth-Resolves_example =
    resolve_request_auth-Resolves table true (some (text "s1")) 4000 twice refl

can_activate-bearer_example :
    (can_activate table false (some (text "s3")) 4000 twice).1 ≡ err unauthorized
unfolding all_handlers
can_activate-bearer_example = can_activate-bearer table false (some (text "s3")) 4000 twice refl
