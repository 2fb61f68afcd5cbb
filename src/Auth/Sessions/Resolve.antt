-- ===== src/Auth/Sessions/Resolve.antt =====
-- Which requests `resolveRequestAuth` authenticates, and what it does to the session table.
use stasharr_portal.Prelude.Results.{Result}
use stasharr_portal.Prelude.Text.{Text, text_eq, text_eq_iff, eq_text}
use stasharr_portal.Prelude.{
  ℕ, ◌≡◌, sym, ap, inl, inr, Bool, false, ◌&&◌, Option, none, some, if◌then◌else◌, Bool-cases,
  is_some, refl, ◌∙◌, true, Option-cases,
}
use stasharr_portal.Database.{Table}
use stasharr_portal.Auth.Records.{AdminUser, AdminSession, AuthContext, anonymous}
use stasharr_portal.Auth.Sessions.{
  World, check_session, ok, resolve_session, resolve_request_auth, resolve_fresh,
}
use stasharr_portal.Auth.Sessions.Verdict.{
  touched, holder, bearer, context_of, check_session-Leaves,
}

module _ (table : Table Text AdminSession) where
  open table use {Rows, find_unique}

  -- What becomes of a cookie's session: it is renewed while it signs in the admin, or dropped.
  abbrev pub kept : Bool → ℕ → Option AdminUser → Option AdminSession → Option AdminSession
  kept respond now admin none = none
  kept respond now admin (some s) =
      if is_some (holder table now admin (some s)) then some (touched respond now s) else none

  -- The row of `j` after a request.
  abbrev pub row_after : Bool → Option Text → ℕ → World table → Text → Option AdminSession
  row_after respond none now w j = find_unique j w.sessions
  row_after respond (some id) now w j =
      if is_some w.admin && text_eq id j
      then kept respond now w.admin (find_unique id w.sessions)
      else find_unique j w.sessions

  -- A verdict on a call of `resolveRequestAuth` with no cached context.
  pub record Resolves (respond : Bool) (cookie : Option Text) (now : ℕ) (w : World table)
      (r : World table × Result AuthContext) : Type 0 where
    pub answer : r.1 ≡ ok (context_of table cookie w.admin (bearer table cookie now w))
    pub cached : r.0.context ≡ some (context_of table cookie w.admin (bearer table cookie now w))
    pub same_admin : r.0.admin ≡ w.admin
    pub rows : (j : Text) → find_unique j r.0.sessions ≡ row_after respond cookie now w j

  found_session-Resolves :
      (respond : Bool) (id : Text) (now : ℕ) (s : AdminSession) (u : AdminUser) (w : World table)
      → w.admin ≡ some u
      → find_unique id w.sessions ≡ some s
      → Resolves respond (some id) now w (check_session table respond id now s (some u) w)
  found_session-Resolves respond id now s u w a e =
      let verdict = check_session-Leaves table respond id now s u w e in
      record {
        answer = verdict.answer ∙ rw (a, e) refl;
        cached = verdict.context ∙ rw (a, e) refl;
        same_admin = verdict.admin;
        rows = λ j. verdict.rows j ∙ rw (a, e) refl;
      }

  lost_session-Resolves :
      (respond : Bool) (id : Text) (now : ℕ) (u : AdminUser) (w : World table)
      → w.admin ≡ some u
      → find_unique id w.sessions ≡ none
      → Resolves respond (some id) now w (resolve_session table respond (some id) now w)
  unfolding resolve_session
  lost_session-Resolves true id now u w a e = record {
    answer = simp (e, a, resolve_session) refl;
    cached = simp (e, a, resolve_session) refl;
    same_admin = simp (e, resolve_session) refl;
    rows = λ j. elim (Bool-cases (text_eq id j)) [
      | inl same ↦
          simp (a, same, e, resolve_session)
            (ap (λ k. find_unique k w.sessions) (sym ((text_eq_iff id j).0 same)) ∙ e)
      | inr other ↦ simp (a, other, e, resolve_session) refl
    ];
  }
  lost_session-Resolves false id now u w a e = record {
    answer = simp (e, a, resolve_session) refl;
    cached = simp (e, a, resolve_session) refl;
    same_admin = simp (e, resolve_session) refl;
    rows = λ j. elim (Bool-cases (text_eq id j)) [
      | inl same ↦
          simp (a, same, e, resolve_session)
            (ap (λ k. find_unique k w.sessions) (sym ((text_eq_iff id j).0 same)) ∙ e)
      | inr other ↦ simp (a, other, e, resolve_session) refl
    ];
  }

  no_admin-context_of :
      (cookie : Option Text) (now : ℕ) (w : World table)
      → w.admin ≡ none
      → anonymous true ≡ context_of table cookie w.admin (bearer table cookie now w)
  no_admin-context_of none now w a = simp a refl
  no_admin-context_of (some id) now w a = elim (Option-cases (find_unique id w.sessions)) [
    | inl e ↦ simp (a, e) refl
    | inr (s, e) ↦ simp (a, e) refl
  ]

  no_admin-row_after :
      (respond : Bool) (cookie : Option Text) (now : ℕ) (w : World table) (j : Text)
      → w.admin ≡ none
      → find_unique j w.sessions ≡ row_after respond cookie now w j
  no_admin-row_after respond none now w j a = refl
  no_admin-row_after respond (some id) now w j a = simp a refl

  -- No admin yet: the request is anonymous, and no session changes.
  no_admin-Resolves :
      (respond : Bool) (cookie : Option Text) (now : ℕ) (w : World table)
      → w.admin ≡ none
      → Resolves respond cookie now w (resolve_fresh table respond cookie now none w)
  unfolding resolve_fresh
  no_admin-Resolves true cookie now w a = record {
    answer = ap ok (no_admin-context_of cookie now w a);
    cached = ap some (no_admin-context_of cookie now w a);
    same_admin = refl;
    rows = λ j. no_admin-row_after true cookie now w j a;
  }
  no_admin-Resolves false cookie now w a = record {
    answer = ap ok (no_admin-context_of cookie now w a);
    cached = ap some (no_admin-context_of cookie now w a);
    same_admin = refl;
    rows = λ j. no_admin-row_after false cookie now w j a;
  }

  -- A session is looked up.
  resolve_session-Resolves :
      (respond : Bool) (cookie : Option Text) (now : ℕ) (u : AdminUser) (w : World table)
      → w.admin ≡ some u
      → Resolves respond cookie now w (resolve_session table respond cookie now w)
  unfolding resolve_session
  resolve_session-Resolves respond none now u w a = record {
    answer = simp a refl;
    cached = simp a refl;
    same_admin = refl;
    rows = λ j. refl;
  }
  resolve_session-Resolves respond (some id) now u w a =
      elim (Option-cases (find_unique id w.sessions)) [
        | inl e ↦ lost_session-Resolves respond id now u w a e
        | inr (s, e) ↦
            simp (e, a, resolve_session) (found_session-Resolves respond id now s u w a e)
      ]

  resolve_fresh-Resolves :
      (respond : Bool) (cookie : Option Text) (now : ℕ) (admin : Option AdminUser) (w : World table)
      → w.admin ≡ admin
      → Resolves respond cookie now w (resolve_fresh table respond cookie now admin w)
  unfolding resolve_fresh
  resolve_fresh-Resolves respond cookie now none w a = no_admin-Resolves respond cookie now w a
  resolve_fresh-Resolves respond cookie now (some u) w a =
      resolve_session-Resolves respond cookie now u w a

  -- A request with no cached context is answered with the context of the admin whom its cookie
  -- signs in, or the anonymous one, and that context is cached. The admin stays as it was; of the
  -- session rows only that of the cookie changes, which is renewed when it is due or, where it
  -- signs nobody in, dropped.
  pub resolve_request_auth-Resolves :
      (respond : Bool) (cookie : Option Text) (now : ℕ) (w : World table)
      → w.context ≡ none
      → Resolves respond cookie now w (resolve_request_auth table respond cookie now w)
  unfolding resolve_request_auth
  resolve_request_auth-Resolves respond cookie now w fresh =
      simp (fresh, resolve_request_auth) (resolve_fresh-Resolves respond cookie now w.admin w refl)
