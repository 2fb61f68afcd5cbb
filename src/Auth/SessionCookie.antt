-- ===== src/Auth/SessionCookie.antt =====
-- The signed session cookie, apps/sp-api/src/auth/session-cookie.service.ts. The HMAC under the
-- session secret is a parameter, from a value to its base64url digest, which holds no dot.
-- `decodeURIComponent` is that of the language, on UTF-16 code units.
use stasharr_portal.Prelude.Text.{
  Text, text, text_eq, eq_text, trim, starts_with, is_empty, to_lower,
}
use stasharr_portal.Prelude.{
  ℕ, ◌+◌, ◌-◌, ◌*◌, ◌/◌, ◌%◌, Bool, true, false, ◌&&◌, ◌||◌, Option, none, some, List, [], ◌∷◌,
  ◌++◌, ltb, leb, ◌==◌, if◌then◌else◌, length, drop,
}
pub mod Signed
pub mod Header
mod Tests

abbrev pub cookie_name : Text
cookie_name = text "stasharr_session"

-- A hexadecimal digit.
unfoldable pub hex : ℕ → Option ℕ
hex c =
    if leb b'0' c && leb c b'9'
    then some (c - b'0')
    else if leb b'a' c && leb c b'f'
    then some (c - 87)
    else if leb b'A' c && leb c b'F'
    then some (c - 55)
    else none

abbrev byte : Option ℕ → Option ℕ → Option ℕ
byte (some h) (some l) = some (h * 16 + l)
byte _ _ = none

-- What of a character is still to come: the bytes, the bits so far and the least code point that
-- needs as many bytes.
pub data Pending : Type 0 where
  whole : Pending
  partial : (left bits least : ℕ) → Pending

-- A byte after `Pending`: an error, a state in the middle of a character, or a code point.
pub data Read : Type 0 where
  malformed : Read
  more : (left bits least : ℕ) → Read
  point : ℕ → Read

-- A code point that its bytes may stand for.
abbrev finished : ℕ → ℕ → Read
finished bits least =
    if ltb bits least || leb 1114112 bits || (leb 55296 bits && leb bits 57343)
    then malformed
    else point bits

unfoldable pub read_byte : Pending → ℕ → Read
read_byte whole b =
    if ltb b 128
    then point b
    else if leb 192 b && ltb b 224
    then more 1 (b - 192) 128
    else if leb 224 b && ltb b 240
    then more 2 (b - 224) 2048
    else if leb 240 b && ltb b 248
    then more 3 (b - 240) 65536
    else malformed
read_byte (partial left bits least) b =
    if leb 128 b && ltb b 192
    then if left == 1
      then finished (bits * 64 + (b - 128)) least
      else more (left - 1) (bits * 64 + (b - 128)) least
    else malformed

-- The UTF-16 code units of a code point.
abbrev units : ℕ → Text
units n =
    if ltb n 65536 then n ∷ [] else (55296 + (n - 65536) / 1024) ∷ (56320 + (n - 65536) % 1024) ∷ []

abbrev prepend : Text → Option Text → Option Text
prepend s none = none
prepend s (some t) = some (s ++ t)

-- `decodeURIComponent`, none where it throws.
unfoldable pub decode_from : Pending → Text → Option Text
decode_from whole [] = some []
decode_from (partial _ _ _) [] = none
decode_from p (c ∷ []) = elim p [
  | whole ↦ if c == b'%' then none else some (c ∷ [])
  | partial _ _ _ ↦ none
]
decode_from p (c ∷ d ∷ []) =
    let rest : Option Text = decode_from whole (d ∷ []) in
    elim p [ whole ↦ if c == b'%' then none else prepend (c ∷ []) rest | partial _ _ _ ↦ none ]
decode_from p (c ∷ d ∷ e ∷ s) =
    let next : Option Text = decode_from whole (d ∷ e ∷ s) in
    if c == b'%'
    then elim (byte (hex d) (hex e)) [
      | none ↦ none
      | some b ↦ elim (read_byte p b) [
        | malformed ↦ none
        | more left bits least ↦ decode_from (partial left bits least) s
        | point n ↦ prepend (units n) (decode_from whole s)
      ]
    ]
    else elim p [ whole ↦ prepend (c ∷ []) next | partial _ _ _ ↦ none ]

unfoldable pub decode_uri_component : Text → Option Text
unfolding decode_from
decode_uri_component s = decode_from whole s

abbrev add_unit : ℕ → List Text → List Text
add_unit c [] = (c ∷ []) ∷ []
add_unit c (part ∷ parts) = (c ∷ part) ∷ parts

-- `split` at a unit.
unfoldable pub split_on : ℕ → Text → List Text
split_on separator [] = [] ∷ []
split_on separator (c ∷ s) =
    let rest : List Text = split_on separator s in
    if c == separator then [] ∷ rest else add_unit c rest

abbrev pub cookie_prefix : Text
cookie_prefix = text "stasharr_session="

-- `decodeURIComponent(encodedValue)`, or the value as it is where that throws.
unfoldable pub decoded : Text → Text
decoded value = elim (decode_uri_component value) [ none ↦ value | some s ↦ s ]

-- The loop over the parts of the header.
unfoldable pub find_cookie : List Text → Option Text
find_cookie [] = none
find_cookie (raw_part ∷ parts) =
    let part : Text = trim raw_part in
    if starts_with cookie_prefix part
    then some (decoded (drop (length cookie_prefix) part))
    else find_cookie parts

unfoldable pub read_cookie_value : Option Text → Option Text
read_cookie_value none = none
read_cookie_value (some []) = none
read_cookie_value (some (c ∷ s)) = find_cookie (split_on b';' (c ∷ s))

-- The slices around the last dot, none where there is no dot.
unfoldable pub split_last : Text → Option (Text × Text)
split_last [] = none
split_last (c ∷ s) = elim (split_last s) [
  | none ↦ if c == b'.' then some ([], s) else none
  | some (before, rest) ↦ some (c ∷ before, rest)
]

-- `timingSafeEqual` on buffers of one length; the expected signature is ASCII, so that the bytes
-- are equal exactly where the strings are.
unfoldable pub constant_time_equals : Text → Text → Bool
constant_time_equals left right = text_eq left right

-- A dot in front is no separator.
abbrev checked : (Text → Text) → Option (Text × Text) → Option Text
checked sign none = none
checked sign (some ([], signature)) = none
checked sign (some (c ∷ s, signature)) =
    if constant_time_equals signature (sign (c ∷ s)) then some (c ∷ s) else none

unfoldable pub read_session_id : (sign : Text → Text) → Option Text → Option Text
read_session_id sign cookie_header = elim (read_cookie_value cookie_header) [
  | none ↦ none
  | some signed_value ↦ checked sign (split_last signed_value)
]

-- The value that `setSessionCookie` gives to the cookie.
abbrev pub signed_value : (Text → Text) → Text → Text
signed_value sign session_id = session_id ++ b'.' ∷ sign session_id

unfoldable pub parse_boolean : Option Text → Bool
parse_boolean none = false
parse_boolean (some value) = text_eq value (text "1") || text_eq (to_lower value) (text "true")

abbrev or_test_secret : Bool → Text → Option Text
or_test_secret is_test [] = if is_test then some (text "test-session-secret") else none
or_test_secret is_test (c ∷ secret) = some (c ∷ secret)

-- `sessionSecret`, none where the constructor throws.
unfoldable pub session_secret : (session_secret_env node_env : Option Text) → Option Text
session_secret secret node_env =
    or_test_secret (elim node_env [ none ↦ false | some env ↦ text_eq env (text "test") ])
      (elim secret [ none ↦ [] | some s ↦ trim s ])
