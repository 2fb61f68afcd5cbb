-- ===== src/Prelude/Int.antt =====
-- The integers over the native numbers, for the counters that the database adds a signed
-- difference to, and the sum of such differences over a list.
use Prim.Native.Nat.{ℕ, suc, ◌+◌, ◌-◌, zero}
use mathlib.Core.Path.{◌≡◌}
use mathlib.Core.Bool.{Bool, true, false}
use native.Mathlib.Omega.{arith}
use stasharr_portal.Prelude.Tests.{leb, if◌then◌else◌}

-- `negsuc n` is -(n + 1).
pub data ℤ : Type 0 where
  pos : ℕ → ℤ
  negsuc : ℕ → ℤ

abbrev pub pos_part : ℤ → ℕ
pos_part (pos n) = n
pos_part (negsuc _) = 0

abbrev pub neg_part : ℤ → ℕ
neg_part (pos _) = 0
neg_part (negsuc n) = suc n

-- The difference of two numbers, an integer.
unfoldable pub diff : ℕ → ℕ → ℤ
diff a b = if leb b a then pos (a - b) else negsuc (b - a - 1)

infixl 65 ◌+ℤ◌
unfoldable pub ◌+ℤ◌ : ℤ → ℤ → ℤ
unfolding diff
a +ℤ b = diff (pos_part a + pos_part b) (neg_part a + neg_part b)

-- `!== 0`
abbrev pub is_nonzero : ℤ → Bool
is_nonzero (pos zero) = false
is_nonzero (pos (suc _)) = true
is_nonzero (negsuc _) = true

pub diff_parts : (a b : ℕ) → pos_part (diff a b) + b ≡ neg_part (diff a b) + a
unfolding diff
diff_parts a b = ground arith

pub +ℤ_parts :
    (a b : ℤ)
    → pos_part (a +ℤ b) + neg_part a + neg_part b ≡ neg_part (a +ℤ b) + pos_part a + pos_part b
unfolding ◌+ℤ◌
+ℤ_parts a b = omega (arith, diff_parts (pos_part a + pos_part b) (neg_part a + neg_part b))

pub eq_of_parts : (a b : ℤ) → pos_part a + neg_part b ≡ pos_part b + neg_part a → a ≡ b
eq_of_parts a b h = ground arith

pub ruleset int_laws = (arith, diff_parts, +ℤ_parts, eq_of_parts)

pub +ℤ_assoc : (a b c : ℤ) → a +ℤ b +ℤ c ≡ a +ℤ (b +ℤ c)
+ℤ_assoc a b c = grind (
  int_laws,
  +ℤ_parts (a +ℤ b) c,
  +ℤ_parts a (b +ℤ c),
  +ℤ_parts a b,
  +ℤ_parts b c,
  eq_of_parts (a +ℤ b +ℤ c) (a +ℤ (b +ℤ c)),
)

-- A count, and what a signed difference makes of it.
pub pos_add_diff : (n m a b : ℕ) → m + b ≡ n + a → pos n +ℤ diff a b ≡ pos m
pos_add_diff n m a b h =
    grind (
      int_laws,
      +ℤ_parts (pos n) (diff a b),
      diff_parts a b,
      eq_of_parts (pos n +ℤ diff a b) (pos m),
    )

pub diff_add : (a b c d : ℕ) → diff a b +ℤ diff c d ≡ diff (a + c) (b + d)
diff_add a b c d = grind (
  int_laws,
  +ℤ_parts (diff a b) (diff c d),
  diff_parts a b,
  diff_parts c d,
  diff_parts (a + c) (b + d),
  eq_of_parts (diff a b +ℤ diff c d) (diff (a + c) (b + d)),
)

pub diff_add_zero : (a : ℤ) → a +ℤ diff 0 0 ≡ a
unfolding diff
diff_add_zero a = grind (int_laws, +ℤ_parts a (diff 0 0), eq_of_parts (a +ℤ diff 0 0) a)

-- A count and a signed difference.
pub zero_add : (a : ℤ) → pos 0 +ℤ a ≡ a
zero_add a = grind (int_laws, +ℤ_parts (pos 0) a, eq_of_parts (pos 0 +ℤ a) a)
