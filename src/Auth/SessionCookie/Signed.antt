-- ===== src/Auth/SessionCookie/Signed.antt =====
-- Which cookies carry a session, apps/sp-api/src/auth/session-cookie.service.ts.
use stasharr_portal.Prelude.{
  ◌≡◌, refl, ◌≢◌, inl, inr, Bool, true, not, Option, none, some, [], ◌∷◌, ◌++◌, arith, ◌==◌,
  Bool-cases, Option-cases, all, sym, ap, ◌∙◌, ◌↔◌, if◌then◌else◌, ==_iff, ℕ, false, ◌&&◌, ◌||◌,
  List, leb,
}
use stasharr_portal.Prelude.Text.{
  Text, text_eq, eq_text, text_eq_iff, text_eq_refl, trim, trim_start, trim_end, is_space,
  starts_with,
}
use mathlib.Core.Option.{some-injective}
use stasharr_portal.Auth.SessionCookie.{
  decode_from, whole, add_unit, split_on, find_cookie, read_cookie_value, split_last,
  constant_time_equals, checked, read_session_id, signed_value,
}

-- No dot is in the text.
abbrev pub no_dot : Text → Bool
no_dot s = all (λ c. not (c == b'.')) s

split_last-none : (s : Text) → no_dot s ≡ true → split_last s ≡ none
unfolding split_last
split_last-none [] h = refl
split_last-none (c ∷ s) h = ground (arith, h, split_last-none s)

split_last-signed :
    (id signature : Text)
    → no_dot signature ≡ true
    → split_last (id ++ b'.' ∷ signature) ≡ some (id, signature)
unfolding split_last
split_last-signed [] signature h = rw (split_last-none signature h) refl
split_last-signed (c ∷ id) signature h = rw (split_last-signed id signature h) refl

split_last_sound :
    (s before rest : Text) → split_last s ≡ some (before, rest) → s ≡ before ++ b'.' ∷ rest
unfolding split_last
split_last_sound [] before rest h = cc h
split_last_sound (c ∷ s) before rest h = elim (Option-cases (split_last s)) [
  | inl e ↦
      let one : ◌≡◌ {A = Option (Text × Text)} (if c == b'.' then some ([], s) else none)
          (some (before, rest)) =
        sym (rw (e, split_last) refl) ∙ h in
      elim (Bool-cases (c == b'.')) [
        | inl d ↦
            ap (λ x. x ∷ s) ((==_iff c b'.').0 d)
            ∙ ap (λ (q : Text × Text). q.0 ++ b'.' ∷ q.1)
                (some-injective ([], s) (before, rest) (rw d at one))
        | inr d ↦ cc (rw d at one)
      ]
  | inr ((b, r), e) ↦
      let more : ◌≡◌ {A = Option (Text × Text)} (some (c ∷ b, r)) (some (before, rest)) =
        sym (rw (e, split_last) refl) ∙ h in
      ap (λ t. c ∷ t) (split_last_sound s b r e)
      ∙ ap (λ (q : Text × Text). q.0 ++ b'.' ∷ q.1) (some-injective (c ∷ b, r) (before, rest) more)
]

checked_lem :
    (sign : Text → Text) (parts : Option (Text × Text)) (id : Text)
    → checked sign parts ≡ some id
    → (id ≢ []) × (parts ≡ some (id, sign id))
unfolding constant_time_equals
checked_lem sign none id h = cc h
checked_lem sign (some ([], signature)) id h = cc h
checked_lem sign (some (c ∷ s, signature)) id h =
    elim (Bool-cases (text_eq signature (sign (c ∷ s)))) [
      | inl e ↦
          let same : c ∷ s ≡ id = some-injective (c ∷ s) id (rw e at h) in
          (
            λ z. cc (same ∙ z),
            ap (λ g. some (c ∷ s, g)) ((text_eq_iff signature (sign (c ∷ s))).0 e)
                ∙ ap (λ i. some (i, sign i)) same,
          )
      | inr e ↦ cc (rw e at h)
    ]

checked_signed :
    (sign : Text → Text) (id : Text) → id ≢ [] → checked sign (some (id, sign id)) ≡ some id
unfolding constant_time_equals
checked_signed sign [] h = absurd (h refl)
checked_signed sign (c ∷ id) h = rw (text_eq_refl (sign (c ∷ id))) refl

-- A request has a session exactly where the value of its cookie is the session's id, not empty,
-- with the signature of the id after a dot, for signatures that hold no dot.
pub read_session_id_iff :
    (sign : Text → Text) (header : Option Text) (id : Text)
    → ((value : Text) → no_dot (sign value) ≡ true)
    → (read_session_id sign header ≡ some id)
      ↔ ((id ≢ []) × (read_cookie_value header ≡ some (signed_value sign id)))
unfolding read_session_id
read_session_id_iff sign header id h = (
  λ e. elim (Option-cases (read_cookie_value header)) [
    | inl n ↦ cc (rw (n, read_session_id) at e)
    | inr (v, n) ↦
        let ok : checked sign (split_last v) ≡ some id = rw (n, read_session_id) at e in
        let (nonempty, parts) = checked_lem sign (split_last v) id ok in
        (nonempty, n ∙ ap some (split_last_sound v id (sign id) parts))
  ],
  λ e.
      rw (e.1, read_session_id)
        (rw (split_last-signed id (sign id) (h id)) (checked_signed sign id e.0)),
)

-- A text of the unreserved characters of a URI, which need no encoding in a cookie.
abbrev pub plain_unit : ℕ → Bool
plain_unit c =
    (leb b'0' c && leb c b'9')
    || (leb b'a' c && leb c b'z')
    || (leb b'A' c && leb c b'Z')
    || c == b'-'
    || c == b'_'
    || c == b'.'

abbrev pub plain : Text → Bool
plain s = all plain_unit s

pub decode_from-plain : (s : Text) → plain s ≡ true → decode_from whole s ≡ some s
unfolding decode_from
decode_from-plain [] h = refl
decode_from-plain (c ∷ []) h = ground (arith, h)
decode_from-plain (c ∷ d ∷ []) h = ground (arith, h)
decode_from-plain (c ∷ d ∷ e ∷ s) h = ground (arith, h, decode_from-plain (d ∷ e ∷ s))

pub plain-is_space : (c : ℕ) → plain_unit c ≡ true → is_space c ≡ false
unfolding is_space
plain-is_space c h = ground (arith, h)

pub both : (a b : Bool) → (a && b) ≡ true → (a ≡ true) × (b ≡ true)
both true b h = (refl, h)
both false b h = cc h

-- No unit of the text is white space.
abbrev pub solid : Text → Bool
solid s = all (λ c. not (is_space c)) s

trim_end-solid : (s : Text) → solid s ≡ true → trim_end s ≡ s
unfolding trim_end
trim_end-solid [] h = refl
trim_end-solid (c ∷ []) h = ground (arith, h)
trim_end-solid (c ∷ d ∷ s) h =
    rw (trim_end-solid (d ∷ s) (both (not (is_space c)) (solid (d ∷ s)) h).1) refl

pub trim-solid : (s : Text) → solid s ≡ true → trim s ≡ s
unfolding trim trim_start trim_end
trim-solid [] h = refl
trim-solid (c ∷ s) h =
    let first : is_space c ≡ false = ground (arith, (both (not (is_space c)) (solid s) h).0) in
    rw (first, trim_start) (trim_end-solid (c ∷ s) h)

pub split_on-append :
    (s t : Text)
    → all (λ c. not (c == b';')) s ≡ true
    → split_on b';' (s ++ b';' ∷ t) ≡ s ∷ split_on b';' t
unfolding split_on
split_on-append [] t h = refl
split_on-append (c ∷ s) t h =
    let (here, rest) = both (not (c == b';')) (all (λ d. not (d == b';')) s) h in
    let other : (c == b';') ≡ false = ground (arith, here) in
    rw (split_on-append s t rest) (rw other refl)

trim-blank : (s : Text) → trim (b' ' ∷ s) ≡ trim s
unfolding trim trim_start is_space
trim-blank s = refl

-- A blank after a separator changes nothing.
pub find_cookie-add_unit :
    (parts : List Text) → find_cookie (add_unit b' ' parts) ≡ find_cookie parts
unfolding find_cookie trim trim_start trim_end is_space starts_with
find_cookie-add_unit [] = refl
find_cookie-add_unit (p ∷ parts) = refl
