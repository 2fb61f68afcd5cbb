-- ===== src/Auth/SessionCookie/Tests.antt =====
-- Cookie headers on concrete values, and the theorems at such inputs.
use stasharr_portal.Prelude.{
  ◌+◌, ◌%◌, ◌≡◌, refl, ◌≢◌, ◌↔◌, true, none, some, [], ◌∷◌, ◌++◌, arith, length, all,
}
use stasharr_portal.Prelude.Text.{Text, text, text_eq, eq_text, trim, starts_with, to_lower}
use stasharr_portal.Auth.SessionCookie.{
  cookie_prefix, hex, read_byte, decode_from, decode_uri_component, decoded, split_on, find_cookie,
  read_cookie_value, split_last, constant_time_equals, read_session_id, signed_value, parse_boolean,
  session_secret,
}
use stasharr_portal.Auth.SessionCookie.Signed.{no_dot, read_session_id_iff}
use stasharr_portal.Auth.SessionCookie.Header.{front, behind, is_other, read_session_id-front}

-- A digest that tells values of different lengths apart.
abbrev sign : Text → Text
sign value = (48 + length value % 10) ∷ text "-mac"

sign-no_dot : (value : Text) → no_dot (sign value) ≡ true
sign-no_dot value = ground arith

abbrev header : Text
header = text "theme=dark; stasharr_session=abc%2E3-mac; stasharr_session=x.1-mac"

cookies : Unit {0}
unfolding text_eq trim starts_with to_lower hex read_byte decode_from decode_uri_component decoded
    split_on find_cookie read_cookie_value split_last constant_time_equals read_session_id
    parse_boolean session_secret
cookies = tt

tests :
    (read_session_id sign (some header) ≡ some (text "abc"))
    × (read_session_id sign (some (text "stasharr_session=abc.4-mac")) ≡ none)
    × (read_session_id sign (some (text "stasharr_session=.0-mac")) ≡ none)
    × (read_session_id sign none ≡ none)
    × (decode_uri_component (text "%E2%82%AC%F0%9F%98%80") ≡ some (8364 ∷ 55357 ∷ 56832 ∷ []))
    × (decode_uri_component (text "%C0%80") ≡ none)
    × (decode_uri_component (text "%4") ≡ none)
    × (parse_boolean (some (text "TRUE")) ≡ true)
    × (session_secret (some (text "  ")) none ≡ none)
unfolding cookies
tests = (refl, refl, refl, refl, refl, refl, refl, refl, refl)

read_session_id_iff_example : (read_session_id sign (some header) ≡ some (text "abc")) ↔ (
    (text "abc" ≢ []) × (read_cookie_value (some header) ≡ some (signed_value sign (text "abc"))))
read_session_id_iff_example = read_session_id_iff sign (some header) (text "abc") sign-no_dot

abc-nonempty : text "abc" ≢ []
abc-nonempty e = cc e

theme-is_other : all is_other (text "theme=dark" ∷ []) ≡ true
unfolding cookies
theme-is_other = refl

read_session_id-front_example :
    read_session_id sign (
      some (
        front
          (text "theme=dark" ∷ [])
          ((cookie_prefix ++ signed_value sign (text "abc")) ++ behind (some (text "a=b")))))
    ≡ some (text "abc")
read_session_id-front_example =
    read_session_id-front sign (text "abc") (text "theme=dark" ∷ []) (some (text "a=b")) sign-no_dot
      abc-nonempty refl refl theme-is_other
