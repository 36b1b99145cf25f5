-- ===== src/Base/Int.antt =====
-- Go's signed `int` as an integer over the native numbers; no counter of the program comes near
-- 2 ^ 63, so it does not wrap.
use tkngate.Base.Tests.{ltb, leb, if◌then◌else◌}
use Prim.Native.Nat.{ℕ, suc, ◌+◌, ◌-◌, ◌%◌, ◌≤◌, ◌<◌}
use mathlib.Core.Path.{◌≡◌}
use mathlib.Core.Bool.{Bool, ◌||◌}
use native.Mathlib.Omega.{arith}

-- `negsuc n` is -(n + 1).
pub data ℤ : Type 0 where
  pos : ℕ → ℤ
  negsuc : ℕ → ℤ

abbrev pub pos_part : ℤ → ℕ
pos_part (pos n) = n
pos_part (negsuc n) = 0

abbrev pub neg_part : ℤ → ℕ
neg_part (pos n) = 0
neg_part (negsuc n) = suc n

abbrev pub sub_ℕ : ℕ → ℕ → ℤ
sub_ℕ a b = if leb b a then pos (a - b) else negsuc (b - a - 1)

infixl 65 ◌+ℤ◌ ◌-ℤ◌
infix 50 ◌≤ℤ◌
unfoldable pub ◌+ℤ◌ : ℤ → ℤ → ℤ
a +ℤ b = sub_ℕ (pos_part a + pos_part b) (neg_part a + neg_part b)

unfoldable pub ◌-ℤ◌ : ℤ → ℤ → ℤ
a -ℤ b = sub_ℕ (pos_part a + neg_part b) (neg_part a + pos_part b)

abbrev pub ◌≤ℤ◌ : ℤ → ℤ → Type 0
a ≤ℤ b = pos_part a + neg_part b ≤ pos_part b + neg_part a

abbrev pub leb_ℤ : ℤ → ℤ → Bool
leb_ℤ a b = leb (pos_part a + neg_part b) (pos_part b + neg_part a)

abbrev pub ltb_ℤ : ℤ → ℤ → Bool
ltb_ℤ a b = ltb (pos_part a + neg_part b) (pos_part b + neg_part a)

-- With these the operations can stay shut.
pub +ℤ_parts :
    (a b : ℤ)
    → pos_part (a +ℤ b) + neg_part a + neg_part b ≡ neg_part (a +ℤ b) + pos_part a + pos_part b
unfolding ◌+ℤ◌
+ℤ_parts a b = ground arith

pub -ℤ_parts :
    (a b : ℤ)
    → pos_part (a -ℤ b) + neg_part a + pos_part b ≡ neg_part (a -ℤ b) + pos_part a + neg_part b
unfolding ◌-ℤ◌
-ℤ_parts a b = ground arith

pub eq_of_parts : (a b : ℤ) → pos_part a + neg_part b ≡ pos_part b + neg_part a → a ≡ b
eq_of_parts a b h = ground arith

pub ruleset int_laws = (arith, +ℤ_parts, -ℤ_parts, eq_of_parts)

-- An int64: what an operation leaves of its exact result, in two's complement.
abbrev pub word_of : ℤ → ℕ
word_of (pos n) = n % 18446744073709551616
word_of (negsuc n) = 18446744073709551615 - n % 18446744073709551616

abbrev pub signed : ℕ → ℤ
signed w = if ltb w 9223372036854775808 then pos w else negsuc (18446744073709551615 - w)

unfoldable pub wrap64 : ℤ → ℤ
wrap64 z = signed (word_of z)

abbrev pub IsInt64 : ℤ → Type 0
IsInt64 z = (pos_part z < 9223372036854775808) × (neg_part z ≤ 9223372036854775808)

-- Between 0 - 2 ^ 63 and 2 ^ 64 a number is at most a small bound after it has wrapped exactly if it
-- was so before or is 2 ^ 63 or more.
pub wrap64-small :
    (z : ℤ) (bound : ℕ)
    → bound < 9223372036854775808
    → neg_part z ≤ 9223372036854775808
    → pos_part z < 18446744073709551616
    → leb_ℤ (wrap64 z) (pos bound) ≡ (leb_ℤ z (pos bound) || leb_ℤ (pos 9223372036854775808) z)
unfolding wrap64
wrap64-small (pos n) bound b lo hi = ground arith
wrap64-small (negsuc n) bound b lo hi = ground arith
