-- ===== src/Auth/Sessions/Verdict.antt =====
-- The checks that `resolveRequestAuth` makes on a session that it found, and what they leave.
use stasharr_portal.Prelude.Results.{Result}
use stasharr_portal.Prelude.Text.{Text, text_eq, text_eq_iff, eq_text}
use stasharr_portal.Prelude.{
  ℕ, ◌+◌, ◌≡◌, sym, ap, inl, inr, Bool, false, not, ◌&&◌, ◌||◌, Option, none, some, ltb, leb, ◌==◌,
  if◌then◌else◌, Bool-cases, is_some, refl, ◌∙◌, true,
}
use stasharr_portal.Database.{Table}
use stasharr_portal.Database.Updates.{update_found, find-delete_key}
use stasharr_portal.Auth.Records.{
  AdminUser, AdminSession, AuthContext, admin_of, anonymous, signed_in, session_ttl_ms,
  session_touch_interval_ms,
}
use stasharr_portal.Auth.Sessions.{
  World, drop_session, refuse_session, touch_session, check_session, ok,
}

-- The row after a touch at the time `now`, which renews it once it was last seen 15 minutes ago.
abbrev pub touched : Bool → ℕ → AdminSession → AdminSession
touched respond now s =
    if not respond || ltb now (s.last_seen_at + session_touch_interval_ms)
    then s
    else record s { expires_at = now + session_ttl_ms; last_seen_at = now }

module _ (table : Table Text AdminSession) where
  open table use {Rows, find_unique}

  -- The user of a session row: the admin, while the row has not expired, is the admin's, and has
  -- the admin's session version.
  abbrev pub holder : ℕ → Option AdminUser → Option AdminSession → Option AdminUser
  holder now admin none = none
  holder now none (some s) = none
  holder now (some u) (some s) =
      if not (leb s.expires_at now)
        && (text_eq u.id s.user_id && s.session_version == u.session_version)
      then some u
      else none

  -- The user that a request's cookie signs in.
  abbrev pub bearer : Option Text → ℕ → World table → Option AdminUser
  bearer none now w = none
  bearer (some id) now w = holder now w.admin (find_unique id w.sessions)

  abbrev pub context_of : Option Text → Option AdminUser → Option AdminUser → AuthContext
  context_of none admin user = anonymous (not (is_some admin))
  context_of (some id) admin none = anonymous (not (is_some admin))
  context_of (some id) admin (some u) = signed_in (admin_of u) id

  -- What a call leaves: the admin, the context `c`, and in the table all rows but that of `id`,
  -- which becomes `row`.
  pub record Leaves (id : Text) (row : Option AdminSession) (c : AuthContext) (w : World table)
      (r : World table × Result AuthContext) : Type 0 where
    pub answer : r.1 ≡ ok c
    pub context : r.0.context ≡ some c
    pub admin : r.0.admin ≡ w.admin
    pub rows :
        (j : Text)
        → find_unique j r.0.sessions ≡ (if text_eq id j then row else find_unique j w.sessions)

  pub same_session :
      (id j : Text) (rows : Rows)
      → find_unique j rows ≡ (if text_eq id j then find_unique id rows else find_unique j rows)
  same_session id j rows = elim (Bool-cases (text_eq id j)) [
    | inl e ↦ rw e (ap (λ k. find_unique k rows) (sym ((text_eq_iff id j).0 e)))
    | inr e ↦ rw e
  ]

  refuse_session-Leaves :
      (respond : Bool) (id : Text) (w : World table)
      → Leaves id none (anonymous false) w (refuse_session table respond id w)
  unfolding refuse_session drop_session
  refuse_session-Leaves true id w = record {
    answer = refl;
    context = refl;
    admin = refl;
    rows = λ j. find-delete_key table id j w.sessions;
  }
  refuse_session-Leaves false id w = record {
    answer = refl;
    context = refl;
    admin = refl;
    rows = λ j. find-delete_key table id j w.sessions;
  }

  touch_session-Leaves :
      (respond : Bool) (id : Text) (s : AdminSession) (now : ℕ) (c : AuthContext) (w : World table)
      → find_unique id w.sessions ≡ some s
      → Leaves id
          (some (touched respond now s))
          c
          w
          (touch_session table respond id s now c (record w { context = some c }))
  unfolding touch_session
  touch_session-Leaves respond id s now c w e =
      let change = λ (row : AdminSession). record row {
        expires_at = now + session_ttl_ms;
        last_seen_at = now;
      } in
      elim (Bool-cases (not respond || ltb now (s.last_seen_at + session_touch_interval_ms))) [
        | inl kept ↦
            rw (kept, touch_session)
              (record {
                answer = refl;
                context = refl;
                admin = refl;
                rows = λ j. same_session id j w.sessions ∙ rw e;
              })
        | inr renewed ↦
            let (rows', done, changed) = update_found table id change s w.sessions e in
            rw (renewed, done, touch_session)
              (record { answer = refl; context = refl; admin = refl; rows = changed })
      ]

  pub check_session-Leaves :
      (respond : Bool) (id : Text) (now : ℕ) (s : AdminSession) (u : AdminUser) (w : World table)
      → find_unique id w.sessions ≡ some s
      → Leaves id
          (if is_some (holder now (some u) (some s)) then some (touched respond now s) else none)
          (context_of (some id) (some u) (holder now (some u) (some s)))
          w
          (check_session table respond id now s (some u) w)
  unfolding check_session
  check_session-Leaves respond id now s u w e = elim (Bool-cases (leb s.expires_at now)) [
    | inl expired ↦ rw (expired, check_session) (refuse_session-Leaves respond id w)
    | inr live ↦ elim (Bool-cases (text_eq u.id s.user_id)) [
      | inr stranger ↦ rw (live, stranger, check_session) (refuse_session-Leaves respond id w)
      | inl owner ↦ elim (Bool-cases (s.session_version == u.session_version)) [
        | inl same ↦
            rw (live, owner, same, check_session)
              (touch_session-Leaves respond id s now (signed_in (admin_of u) id) w e)
        | inr old ↦ rw (live, owner, old, check_session) (refuse_session-Leaves respond id w)
      ]
    ]
  ]
