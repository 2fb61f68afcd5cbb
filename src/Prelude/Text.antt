-- ===== src/Prelude/Text.antt =====
-- JavaScript strings as the lists of their UTF-16 code units, with `trim`, `toLowerCase` and
-- equality. Lower-casing maps the ASCII letters and leaves every other unit alone.
use Prim.Native.Nat.{ℕ, ◌+◌, ◌-◌}
use Prim.Native.Char.{code}
use Prim.Native.String.{String}
use mathlib.Core.Path.{◌≡◌, refl}
use mathlib.Core.Logic.{◌↔◌, inl, inr, ◌≢◌}
use mathlib.Core.Bool.{Bool, true, false, ◌&&◌, ◌||◌, not}
use mathlib.Core.List.{List, [], ◌∷◌, ◌++◌, map}
use native.Mathlib.Omega.{arith}
use stasharr_portal.Prelude.Tests.{leb, ◌==◌, if◌then◌else◌, Eq, Bool-cases}

abbrev pub Text : Type 0
Text = List ℕ

-- The code points of a literal; they are its UTF-16 units when it is ASCII.
abbrev pub text : String → Text
text String.[] = []
text (String.◌∷◌ c s) = code c ∷ text s

-- `===` on strings.
unfoldable pub text_eq : Text → Text → Bool
text_eq [] [] = true
text_eq (x ∷ xs) (y ∷ ys) = x == y && text_eq xs ys
text_eq _ _ = false

pub text_eq_refl : (s : Text) → text_eq s s ≡ true
unfolding text_eq
text_eq_refl [] = refl
text_eq_refl (x ∷ xs) = ground (arith, text_eq_refl xs)

text_eq_sound : (s t : Text) → text_eq s t ≡ true → s ≡ t
unfolding text_eq
text_eq_sound [] [] h = refl
text_eq_sound (x ∷ xs) (y ∷ ys) h = ground (arith, text_eq_sound xs ys)
text_eq_sound [] (y ∷ ys) h = ground arith
text_eq_sound (x ∷ xs) [] h = ground arith

pub text_eq_iff : (s t : Text) → (text_eq s t ≡ true) ↔ (s ≡ t)
text_eq_iff s t = (text_eq_sound s t, λ e. rw (← e) (text_eq_refl s))

instance abbrev pub eq_text : Eq Text
eq_text = record { beq = text_eq; beq_iff = text_eq_iff }

-- The white space and line terminators that `trim` strips.
unfoldable pub is_space : ℕ → Bool
is_space c =
    (leb 9 c && leb c 13)
    || c == 32
    || c == 160
    || c == 5760
    || (leb 8192 c && leb c 8202)
    || c == 8232
    || c == 8233
    || c == 8239
    || c == 8287
    || c == 12288
    || c == 65279

unfoldable pub trim_start : Text → Text
unfolding is_space
trim_start [] = []
trim_start (c ∷ s) = if is_space c then trim_start s else c ∷ s

abbrev cons_end : ℕ → Text → Text
cons_end c [] = if is_space c then [] else c ∷ []
cons_end c (d ∷ r) = c ∷ d ∷ r

unfoldable pub trim_end : Text → Text
unfolding is_space
trim_end [] = []
trim_end (c ∷ s) = cons_end c (trim_end s)

unfoldable pub trim : Text → Text
unfolding trim_start trim_end
trim s = trim_end (trim_start s)

unfoldable pub lower_unit : ℕ → ℕ
lower_unit c = if leb b'A' c && leb c b'Z' then c + 32 else c

unfoldable pub to_lower : Text → Text
unfolding lower_unit
to_lower s = map lower_unit s

unfoldable pub upper_unit : ℕ → ℕ
upper_unit c = if leb b'a' c && leb c b'z' then c - 32 else c

unfoldable pub to_upper : Text → Text
unfolding upper_unit
to_upper s = map upper_unit s

-- `needle` begins the text.
unfoldable pub starts_with : Text → Text → Bool
starts_with [] _ = true
starts_with (x ∷ xs) [] = false
starts_with (x ∷ xs) (y ∷ ys) = x == y && starts_with xs ys

-- `String.prototype.includes`, the needle first.
unfoldable pub includes : Text → Text → Bool
unfolding starts_with
includes needle [] = starts_with needle []
includes needle (c ∷ s) = starts_with needle (c ∷ s) || includes needle s

-- An empty string is falsy.
abbrev pub is_empty : Text → Bool
is_empty [] = true
is_empty (_ ∷ _) = false

abbrev starts_solid : Text → Bool
starts_solid [] = true
starts_solid (c ∷ _) = not (is_space c)

trim_start-starts_solid : (s : Text) → starts_solid (trim_start s) ≡ true
unfolding trim_start
trim_start-starts_solid [] = refl
trim_start-starts_solid (c ∷ s) = elim (Bool-cases (is_space c)) [
  | inl h ↦ rw h (trim_start-starts_solid s)
  | inr h ↦ rw h (rw h)
]

pub trim_start_of_solid : (s : Text) → starts_solid s ≡ true → trim_start s ≡ s
unfolding trim_start
trim_start_of_solid [] h = refl
trim_start_of_solid (c ∷ s) h = elim (Bool-cases (is_space c)) [
  | inl e ↦ cc (rw e at h)
  | inr e ↦ rw e
]

cons_end-starts_solid :
    (c : ℕ) (r : Text) → starts_solid (c ∷ []) ≡ true → starts_solid (cons_end c r) ≡ true
cons_end-starts_solid c [] h = elim (Bool-cases (is_space c)) [ inl e ↦ rw e | inr e ↦ rw e (rw e) ]
cons_end-starts_solid c (d ∷ r) h = h

trim_end-starts_solid : (s : Text) → starts_solid s ≡ true → starts_solid (trim_end s) ≡ true
unfolding trim_end
trim_end-starts_solid [] h = refl
trim_end-starts_solid (c ∷ s) h = cons_end-starts_solid c (trim_end s) h

pub cons_end_of_ne : (c : ℕ) (r : Text) → r ≢ [] → cons_end c r ≡ c ∷ r
cons_end_of_ne c [] h = absurd (h refl)
cons_end_of_ne c (d ∷ r) h = refl

trim_end-cons_end : (c : ℕ) (r : Text) → trim_end r ≡ r → trim_end (cons_end c r) ≡ cons_end c r
unfolding trim_end
trim_end-cons_end c [] h = elim (Bool-cases (is_space c)) [ inl e ↦ rw e | inr e ↦ rw e (rw e) ]
trim_end-cons_end c (d ∷ r) h = rw h

trim_end_idem : (s : Text) → trim_end (trim_end s) ≡ trim_end s
unfolding trim_end
trim_end_idem [] = refl
trim_end_idem (c ∷ s) = trim_end-cons_end c (trim_end s) (trim_end_idem s)

-- Trimming twice is trimming once.
pub trim_idem : (s : Text) → trim (trim s) ≡ trim s
unfolding trim
trim_idem s =
    rw
      (trim_start_of_solid (trim_end (trim_start s))
        (trim_end-starts_solid (trim_start s) (trim_start-starts_solid s)))
      (trim_end_idem (trim_start s))

pub trim_end-trim : (s : Text) → trim_end (trim s) ≡ trim s
unfolding trim
trim_end-trim s = trim_end_idem (trim_start s)

append-ne-nil : (s t : Text) → t ≢ [] → s ++ t ≢ []
append-ne-nil [] t h = h
append-ne-nil (c ∷ s) t h = λ e. cc

pub trim_end-append : (s t : Text) → trim_end t ≢ [] → trim_end (s ++ t) ≡ s ++ trim_end t
unfolding trim_end
trim_end-append [] t h = refl
trim_end-append (c ∷ s) t h =
    rw (trim_end-append s t h) (cons_end_of_ne c (s ++ trim_end t) (append-ne-nil s (trim_end t) h))
