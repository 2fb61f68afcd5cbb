-- ===== src/Auth/SessionCookie/Header.antt =====
-- The way of a session's cookie through the request header: what `setSessionCookie` of
-- apps/sp-api/src/auth/session-cookie.service.ts sets is what `readSessionId` reads, among the
-- cookies of others. A browser joins the cookies with a semicolon and a blank.
use stasharr_portal.Prelude.{
  ◌≡◌, refl, ap, ◌∙◌, Bool, true, false, not, ◌&&◌, Option, none, some, List, [], ◌∷◌, ◌++◌, arith,
  ◌==◌, all, ◌≢◌, if◌then◌else◌, length, drop, append_nil_right,
}
use stasharr_portal.Prelude.Text.{Text, eq_text, trim, trim_start, trim_end, is_space, starts_with}
use stasharr_portal.Auth.SessionCookie.{
  cookie_prefix, decode_uri_component, decoded, add_unit, split_on, find_cookie, read_cookie_value,
  read_session_id, signed_value,
}
use stasharr_portal.Auth.SessionCookie.Signed.{
  no_dot, plain, plain_unit, decode_from-plain, plain-is_space, solid, both, trim-solid,
  split_on-append, find_cookie-add_unit, read_session_id_iff,
}

-- The cookies before one, and what follows it.
abbrev pub front : List Text → Text → Text
front [] tail = tail
front (other ∷ others) tail = other ++ b';' ∷ b' ' ∷ front others tail

abbrev pub behind : Option Text → Text
behind none = []
behind (some more) = b';' ∷ b' ' ∷ more

-- A cookie of another name.
abbrev pub is_other : Text → Bool
is_other s = all (λ c. not (c == b';')) s && not (starts_with cookie_prefix (trim s))

read_cookie_value-split :
    (header : Text) → read_cookie_value (some header) ≡ find_cookie (split_on b';' header)
unfolding read_cookie_value split_on find_cookie trim trim_start trim_end starts_with
read_cookie_value-split [] = refl
read_cookie_value-split (c ∷ s) = refl

split_on_none : (s : Text) → all (λ c. not (c == b';')) s ≡ true → split_on b';' s ≡ s ∷ []
unfolding split_on
split_on_none [] h = refl
split_on_none (c ∷ s) h =
    let (here, rest) = both (not (c == b';')) (all (λ d. not (d == b';')) s) h in
    let other : (c == b';') ≡ false = ground (arith, here) in
    rw (split_on_none s rest) (rw other refl)

split_on-blank : (t : Text) → split_on b';' (b' ' ∷ t) ≡ add_unit b' ' (split_on b';' t)
unfolding split_on
split_on-blank t = refl

find_cookie-skip :
    (other : Text) (parts : List Text)
    → starts_with cookie_prefix (trim other) ≡ false
    → find_cookie (other ∷ parts) ≡ find_cookie parts
unfolding find_cookie
find_cookie-skip other parts h = rw h refl

-- The cookies of others are passed over.
find_cookie-front :
    (others : List Text) (tail : Text)
    → all is_other others ≡ true
    → find_cookie (split_on b';' (front others tail)) ≡ find_cookie (split_on b';' tail)
find_cookie-front [] tail h = refl
find_cookie-front (other ∷ others) tail h =
    let (here, rest) = both (is_other other) (all is_other others) h in
    let (whole_part, name) =
      both (all (λ c. not (c == b';')) other) (not (starts_with cookie_prefix (trim other))) here in
    rw (split_on-append other (b' ' ∷ front others tail) whole_part) (
      find_cookie-skip other (split_on b';' (b' ' ∷ front others tail)) (ground (arith, name))
      ∙ (ap find_cookie (split_on-blank (front others tail))
          ∙ (find_cookie-add_unit (split_on b';' (front others tail))
              ∙ find_cookie-front others tail rest)))

plain-append : (s t : Text) → plain s ≡ true → plain t ≡ true → plain (s ++ t) ≡ true
plain-append [] t h k = k
plain-append (c ∷ s) t h k =
    let (here, rest) = both (plain_unit c) (plain s) h in rw (here, plain-append s t rest k) refl

plain-solid : (s : Text) → plain s ≡ true → solid s ≡ true
plain-solid [] h = refl
plain-solid (c ∷ s) h =
    let (here, rest) = both (plain_unit c) (plain s) h in
    rw (plain-is_space c here, plain-solid s rest) refl

plain-separator : (s : Text) → plain s ≡ true → all (λ c. not (c == b';')) s ≡ true
plain-separator [] h = refl
plain-separator (c ∷ s) h =
    let (here, rest) = both (plain_unit c) (plain s) h in
    ground (arith, here, plain-separator s rest)

cookie-solid : (value : Text) → plain value ≡ true → solid (cookie_prefix ++ value) ≡ true
unfolding is_space
cookie-solid value h = plain-solid value h

decoded-plain : (value : Text) → plain value ≡ true → decoded value ≡ value
unfolding decoded decode_uri_component
decoded-plain value h = rw (decode_from-plain value h, decoded) refl

-- The part of the header, trimmed, and what `find_cookie` makes of it.
abbrev found : Text → Option Text → Option Text
found part others =
    if starts_with cookie_prefix part
    then some (decoded (drop (length cookie_prefix) part))
    else others

-- The cookie itself is found, whatever follows it.
find_cookie-here :
    (value : Text) (parts : List Text)
    → plain value ≡ true
    → find_cookie ((cookie_prefix ++ value) ∷ parts) ≡ some value
unfolding find_cookie starts_with
find_cookie-here value parts h =
    ap (λ p. found p (find_cookie parts))
      (trim-solid (cookie_prefix ++ value) (cookie-solid value h))
    ∙ ap some (decoded-plain value h)

split_on-behind :
    (s : Text) (after : Option Text)
    → all (λ c. not (c == b';')) s ≡ true
    → (parts : List Text) × (split_on b';' (s ++ behind after) ≡ s ∷ parts)
split_on-behind s none h = ([], ap (split_on b';') (append_nil_right s) ∙ split_on_none s h)
split_on-behind s (some more) h = (split_on b';' (b' ' ∷ more), split_on-append s (b' ' ∷ more) h)

-- The cookie that is set for a session, sent with the cookies of others before it and anything
-- after it, gives the session's id back. The id is not empty, it and its signature are of
-- characters that a URI does not encode, and signatures hold no dot.
pub read_session_id-front :
    (sign : Text → Text) (id : Text) (others : List Text) (after : Option Text)
    → ((value : Text) → no_dot (sign value) ≡ true)
    → id ≢ []
    → plain id ≡ true
    → plain (sign id) ≡ true
    → all is_other others ≡ true
    → read_session_id sign
        (some (front others ((cookie_prefix ++ signed_value sign id) ++ behind after)))
      ≡ some id
read_session_id-front sign id others after dots nonempty p q others_h =
    let value : Text = signed_value sign id in
    let fine : plain value ≡ true = plain-append id (b'.' ∷ sign id) p q in
    let (parts, split) =
      split_on-behind (cookie_prefix ++ value) after (plain-separator value fine) in
    (read_session_id_iff sign (some (front others ((cookie_prefix ++ value) ++ behind after))) id
        dots).1
      (
        nonempty,
        read_cookie_value-split (front others ((cookie_prefix ++ value) ++ behind after))
            ∙ (find_cookie-front others ((cookie_prefix ++ value) ++ behind after) others_h
                ∙ (ap find_cookie split ∙ find_cookie-here value parts fine)),
      )
