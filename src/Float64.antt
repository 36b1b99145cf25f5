-- ===== src/Float64.antt =====
-- Go's `float64`, which the language gives and the program only uses: the type, the operations the
-- source calls, and the laws of IEEE 754 on values that are not NaN. Rounding is not assumed away:
-- addition is neither associative nor cancellative here. NaN does not arise in the program, whose
-- amounts come from finite literals, counts and configuration values. `sum` is the SUM of SQLite, whose
-- rounding is SQLite's own: nothing is assumed of it.
pub mod Scaled
use tkngate.Base.{
  ℕ, suc, ◌+◌, ◌*◌, ◌≤◌, ◌<◌, ◌≡◌, ◌⊎◌, Bool, true, false, not, ◌&&◌, refl, arith, if◌then◌else◌,
  List,
}

pub record Float64 : Type 1 where
  pub Float : Type 0
  -- The value nearest to the decimal p / q.
  pub lit : ℕ → ℕ → Float
  pub add : Float → Float → Float
  pub sub : Float → Float → Float
  pub mul : Float → Float → Float
  pub div : Float → Float → Float
  -- SUM of one value or more
  pub sum : List Float → Float
  -- `a <= b`
  pub le : Float → Float → Bool
  pub le_refl : (a : Float) → le a a ≡ true
  pub le_trans : (a b c : Float) → le a b ≡ true → le b c ≡ true → le a c ≡ true
  pub le_total : (a b : Float) → le a b ≡ false → le b a ≡ true
  pub lit_nonneg : (p q : ℕ) → le (lit 0 1) (lit p q) ≡ true
  pub lit_mono : (p r q : ℕ) → p ≤ r → le (lit p q) (lit r q) ≡ true
  pub add_grows : (a b : Float) → le (lit 0 1) b ≡ true → le a (add a b) ≡ true
  pub sub_shrinks : (a b : Float) → le (lit 0 1) b ≡ true → le (sub a b) a ≡ true
  pub mul_mono :
      (c a b : Float) → le (lit 0 1) c ≡ true → le a b ≡ true → le (mul c a) (mul c b) ≡ true
  pub div_mono :
      (c a b : Float) → le (lit 0 1) c ≡ true → le a b ≡ true → le (div a c) (div b c) ≡ true
  pub add_mono : (a b c d : Float) → le a b ≡ true → le c d ≡ true → le (add a c) (add b d) ≡ true
  pub mul_mono_left :
      (c a b : Float) → le (lit 0 1) c ≡ true → le a b ≡ true → le (mul a c) (mul b c) ≡ true
  pub mul_nonneg :
      (a b : Float) → le (lit 0 1) a ≡ true → le (lit 0 1) b ≡ true → le (lit 0 1) (mul a b) ≡ true
  pub div_nonneg :
      (a b : Float) → le (lit 0 1) a ≡ true → le b (lit 0 1) ≡ false → le (lit 0 1) (div a b) ≡ true
  pub whole_pos : (p : ℕ) → le (lit (suc p) 1) (lit 0 1) ≡ false

module _ (F : Float64) where
  -- `a < b` and `a == b`, for values that are not NaN.
  abbrev pub lt : F.Float → F.Float → Bool
  lt a b = not (F.le b a)

  abbrev pub same : F.Float → F.Float → Bool
  same a b = F.le a b && F.le b a

  -- `float64(n)` and the literal n.0
  abbrev pub whole : ℕ → F.Float
  whole n = F.lit n 1
