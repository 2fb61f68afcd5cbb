-- ===== src/Auth/Accounts/Refused.antt =====
-- What a login that fails leaves as it was, whatever refused it: the throttle, the check of the
-- password, or the table where the session is created.
use stasharr_portal.Prelude.Results.{Result, HttpError}
use stasharr_portal.Prelude.Text.{Text, eq_text, text_eq}
use stasharr_portal.Prelude.{
  ℕ, ◌≡◌, refl, inl, inr, Option, none, some, ◌&&◌, Bool-cases, Option-cases,
}
use stasharr_portal.Database.{Table}
use stasharr_portal.Auth.LoginAttempts.{Attempts, clear}
use stasharr_portal.Auth.Records.{AdminUser, AdminSession, Argon2, AuthStatus, normalize_username}
use stasharr_portal.Auth.Sessions.{World}
use stasharr_portal.Auth.Accounts.{
  check_password, enter, start_session, fail_login, login, err, ok, both_keys,
}
use stasharr_portal.Auth.Accounts.Login.{login-cases, started}

module _ (table : Table Text AdminSession) (argon2 : Argon2) where
  -- Of the world only the throttle may differ.
  pub record IsUnentered (w v : World table) : Type 0 where
    pub sessions : v.sessions ≡ w.sessions
    pub admin : v.admin ≡ w.admin
    pub context : v.context ≡ w.context
    pub cookies : v.cookies ≡ w.cookies

  -- A verdict on an answered login.
  abbrev Refusal : World table → World table × Result AuthStatus → Type 0
  Refusal w (v, err e) = IsUnentered w v
  Refusal w (v, ok status) = Unit

  untouched : (m : Attempts) (w : World table) → IsUnentered w (record w { attempts = m })
  untouched m w = record { sessions = refl; admin = refl; context = refl; cookies = refl }

  enter-Refusal :
      (new_id : Text) (u : AdminUser) (now : ℕ) (m : Attempts) (w : World table)
      → Refusal w (enter table argon2 new_id u now (record w { attempts = m }))
  unfolding enter start_session
  enter-Refusal new_id u now m w =
      elim (Option-cases (table.create new_id (started table argon2 u now) w.sessions)) [
        | inl lost ↦ rw (lost, enter, start_session) (untouched m w)
        | inr (rows, done) ↦ rw (done, enter, start_session) tt
      ]

  check_password-Refusal :
      (new_id ip username password : Text) (now : ℕ) (m : Attempts) (w : World table)
      (admin : Option AdminUser)
      → Refusal w (
          check_password table argon2 new_id ip username password now admin
            (record w { attempts = m }))
  unfolding check_password fail_login
  check_password-Refusal new_id ip username password now m w none = untouched m w
  check_password-Refusal new_id ip username password now m w (some u) =
      elim (Bool-cases
        (text_eq u.normalized_username username && argon2.verify u.password_hash password)) [
          | inl good ↦
              rw (good, check_password)
                (enter-Refusal new_id u now (both_keys ip username (λ key n. clear key n) m) w)
          | inr bad ↦ rw (bad, check_password) (untouched _ w)
        ]

  Refusal-err :
      (w : World table) (r : World table × Result AuthStatus) (x : HttpError)
      → r.1 ≡ err x
      → Refusal w r
      → IsUnentered w r.0
  Refusal-err w (v, ok s) x e h = cc e
  Refusal-err w (v, err s) x e h = h

  login-Refusal :
      (new_id ip username password : Text) (now : ℕ) (w : World table)
      → Refusal w (login table argon2 new_id ip username password now w)
  login-Refusal new_id ip username password now w =
      let (m, c) = login-cases table argon2 new_id ip username password now w in
      elim c [
        | inl (x, e) ↦ rw e (untouched m w)
        | inr e ↦ rw e (
            check_password-Refusal new_id ip (normalize_username username) password now m w w.admin)
      ]

  -- A login that fails changes neither the admin, nor a session, nor the context of the request, and
  -- sets no cookie.
  pub login_refused :
      (new_id ip username password : Text) (now : ℕ) (x : HttpError) (w : World table)
      → (login table argon2 new_id ip username password now w).1 ≡ err x
      → IsUnentered w (login table argon2 new_id ip username password now w).0
  login_refused new_id ip username password now x w refused =
      Refusal-err w (login table argon2 new_id ip username password now w) x refused
        (login-Refusal new_id ip username password now w)
