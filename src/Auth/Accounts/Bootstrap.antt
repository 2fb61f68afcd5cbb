-- ===== src/Auth/Accounts/Bootstrap.antt =====
-- What the bootstrap of the admin leaves, and that it happens once.
use stasharr_portal.Prelude.Text.{trim, Text, eq_text, text_eq_iff}
use stasharr_portal.Prelude.{ℕ, ◌+◌, ◌<◌, ◌≡◌, Bool, true, none, some, refl, ap, ◌∙◌}
use stasharr_portal.Database.{Table}
use stasharr_portal.Auth.Records.{
  AdminUser, normalize_username, AdminSession, Argon2, admin_of, signed_in, session_ttl_ms,
}
use stasharr_portal.Auth.Sessions.{World, resolve_request_auth}
use stasharr_portal.Auth.Sessions.Verdict.{bearer, context_of}
use stasharr_portal.Auth.Sessions.Resolve.{resolve_request_auth-Resolves}
use stasharr_portal.Auth.Accounts.{new_admin, bootstrap_admin, to_status, ok, err, conflict}
use stasharr_portal.Auth.Accounts.Login.{next, entered, enter_fresh, started-holder}

module _ (table : Table Text AdminSession) (argon2 : Argon2) where
  open table use {Rows, find_unique}

  -- What a bootstrap leaves: an admin with the name, whose stored hash the password meets, and the
  -- session `new_id`, seen at the time `t`; no later bootstrap changes anything.
  pub record Bootstrapped (user_id new_id username password : Text) (t : ℕ) (respond : Bool)
      (v : World table) : Type 0 where
    pub user : AdminUser
    pub admin : v.admin ≡ some user
    pub id : user.id ≡ user_id
    pub name : user.username ≡ trim username
    pub normalized : user.normalized_username ≡ normalize_username username
    pub verified : argon2.verify user.password_hash password ≡ true
    pub signs_in :
        (resolve_request_auth table respond (some new_id) t v).1
        ≡ ok (signed_in (admin_of user) new_id)
    pub once :
        (user_id' new_id' username' password' : Text) (salt' now' : ℕ)
        → bootstrap_admin table argon2 user_id' new_id' username' password' salt' now' v
          ≡ (v, err conflict)

  -- A bootstrap with no admin stored and a free session id stores an admin with the name given, whose
  -- stored hash the password meets, signs its cookie in as that admin until the session expires, and
  -- makes every later bootstrap a conflict that changes nothing.
  pub bootstrap_once :
      (user_id new_id username password : Text) (salt now t : ℕ) (respond : Bool) (w : World table)
      → find_unique new_id w.sessions ≡ none
      → w.admin ≡ none
      → t < now + session_ttl_ms
      → Bootstrapped user_id new_id username password t respond
          (next (bootstrap_admin table argon2 user_id new_id username password salt now w).0)
  unfolding bootstrap_admin new_admin
  bootstrap_once user_id new_id username password salt now t respond w free a soon =
      let u = new_admin table argon2 user_id username password salt in
      let (rows, e, found) =
        enter_fresh table argon2 new_id u now (record w { admin = some u }) free in
      let v = entered table argon2 new_id u now rows (record w { admin = some u }) in
      let step : bootstrap_admin table argon2 user_id new_id username password salt now w
          ≡ (v, ok (to_status (signed_in (admin_of u) new_id))) =
        rw (a, bootstrap_admin) e in
      let bearer_at : bearer table (some new_id) t v ≡ some u =
        rw (found new_id, (text_eq_iff new_id new_id).1 refl)
          (started-holder table argon2 u now t soon) in
      rw step (record {
        user = u;
        admin = refl;
        id = refl;
        name = refl;
        normalized = refl;
        verified = argon2.verify-hash salt password;
        signs_in =
            (resolve_request_auth-Resolves table respond (some new_id) t (next v) refl).answer
            ∙ ap (λ user. ok (context_of table (some new_id) (some u) user)) bearer_at;
        once = λ _ _ _ _ _ _. refl;
      })
