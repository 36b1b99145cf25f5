-- ===== src/Float64/Scaled.antt =====
-- Fixed-point numbers with three decimals satisfy the laws of `Float64`: the instance on which the
-- witnesses run.
use tkngate.Base.{ℕ, suc, ◌+◌, ◌*◌, ◌/◌, ◌≤◌, ◌≡◌, true, false, arith, List, [], ◌∷◌}
use tkngate.Float64.{Float64}
use tkngate.Base.Int.{ℤ, pos, negsuc, pos_part, neg_part, sub_ℕ, ◌+ℤ◌, ◌-ℤ◌, leb_ℤ}

abbrev pub mul : ℤ → ℤ → ℤ
mul a b =
    sub_ℕ ((pos_part a * pos_part b + neg_part a * neg_part b) / 1000)
      ((pos_part a * neg_part b + neg_part a * pos_part b) / 1000)

abbrev pub sum : List ℤ → ℤ
sum [] = pos 0
sum (x ∷ xs) = x +ℤ sum xs

abbrev pub div : ℤ → ℤ → ℤ
div a (pos c) = sub_ℕ (pos_part a * 1000 / c) (neg_part a * 1000 / c)
div a (negsuc c) = sub_ℕ (neg_part a * 1000 / suc c) (pos_part a * 1000 / suc c)

pub le_trans : (a b c : ℤ) → leb_ℤ a b ≡ true → leb_ℤ b c ≡ true → leb_ℤ a c ≡ true
le_trans a b c h k = ground arith

pub le_total : (a b : ℤ) → leb_ℤ a b ≡ false → leb_ℤ b a ≡ true
le_total a b h = ground arith

pub le_refl : (a : ℤ) → leb_ℤ a a ≡ true
le_refl a = ground arith

pub add_grows : (a b : ℤ) → leb_ℤ (pos 0) b ≡ true → leb_ℤ a (a +ℤ b) ≡ true
unfolding ◌+ℤ◌
add_grows a b h = ground arith

pub sub_shrinks : (a b : ℤ) → leb_ℤ (pos 0) b ≡ true → leb_ℤ (a -ℤ b) a ≡ true
unfolding ◌-ℤ◌
sub_shrinks a b h = ground arith

div-le : (a b c : ℕ) → a ≤ b → a / c ≤ b / c
div-le a b c h = grind arith

-- The decimal p / q, rounded down to thousandths.
abbrev pub lit : ℕ → ℕ → ℤ
lit p q = pos (p * 1000 / q)

pub lit_mono : (p r q : ℕ) → p ≤ r → leb_ℤ (lit p q) (lit r q) ≡ true
lit_mono p r q h =
    let scaled : p * 1000 / q ≤ r * 1000 / q = div-le (p * 1000) (r * 1000) q (omega arith) in
    ground arith

pub lit_nonneg : (p q : ℕ) → leb_ℤ (lit 0 1) (lit p q) ≡ true
lit_nonneg p q = ground arith

scaled-le : (c a b : ℕ) → a ≤ b → c * a / 1000 ≤ c * b / 1000
scaled-le c a b h = div-le (c * a) (c * b) 1000 (grind arith)

pub mul_mono :
    (c a b : ℤ) → leb_ℤ (pos 0) c ≡ true → leb_ℤ a b ≡ true → leb_ℤ (mul c a) (mul c b) ≡ true
mul_mono (pos c) (pos a) (pos b) hc h = ground (arith, scaled-le c a b)
mul_mono (pos c) (pos a) (negsuc b) hc h = ground arith
mul_mono (pos c) (negsuc a) (pos b) hc h = ground arith
mul_mono (pos c) (negsuc a) (negsuc b) hc h = ground (arith, scaled-le c (suc b) (suc a))
mul_mono (negsuc c) a b hc h = absurd (ground arith)

pub div_mono :
    (c a b : ℤ) → leb_ℤ (pos 0) c ≡ true → leb_ℤ a b ≡ true → leb_ℤ (div a c) (div b c) ≡ true
div_mono (pos c) (pos a) (pos b) hc h = ground (arith, div-le (a * 1000) (b * 1000) c)
div_mono (pos c) (pos a) (negsuc b) hc h = ground arith
div_mono (pos c) (negsuc a) (pos b) hc h = ground arith
div_mono (pos c) (negsuc a) (negsuc b) hc h = ground (arith, div-le (suc b * 1000) (suc a * 1000) c)
div_mono (negsuc c) a b hc h = absurd (ground arith)

pub add_mono : (a b c d : ℤ) → leb_ℤ a b ≡ true → leb_ℤ c d ≡ true → leb_ℤ (a +ℤ c) (b +ℤ d) ≡ true
unfolding ◌+ℤ◌
add_mono a b c d h k = ground arith

scaled-le_left : (c a b : ℕ) → a ≤ b → a * c / 1000 ≤ b * c / 1000
scaled-le_left c a b h = div-le (a * c) (b * c) 1000 (grind arith)

pub mul_mono_left :
    (c a b : ℤ) → leb_ℤ (pos 0) c ≡ true → leb_ℤ a b ≡ true → leb_ℤ (mul a c) (mul b c) ≡ true
mul_mono_left (pos c) (pos a) (pos b) hc h = ground (arith, scaled-le_left c a b)
mul_mono_left (pos c) (pos a) (negsuc b) hc h = ground arith
mul_mono_left (pos c) (negsuc a) (pos b) hc h = ground arith
mul_mono_left (pos c) (negsuc a) (negsuc b) hc h = ground (arith, scaled-le_left c (suc b) (suc a))
mul_mono_left (negsuc c) a b hc h = absurd (ground arith)

pub whole_pos : (p : ℕ) → leb_ℤ (lit (suc p) 1) (lit 0 1) ≡ false
whole_pos p =
    let large : 1000 / 1 ≤ suc p * 1000 / 1 = div-le 1000 (suc p * 1000) 1 (omega arith) in
    ground arith

pub mul_nonneg :
    (a b : ℤ) → leb_ℤ (pos 0) a ≡ true → leb_ℤ (pos 0) b ≡ true → leb_ℤ (pos 0) (mul a b) ≡ true
mul_nonneg (pos a) (pos b) h k = ground arith
mul_nonneg (negsuc a) b h k = absurd (ground arith)
mul_nonneg (pos a) (negsuc b) h k = absurd (ground arith)

pub div_nonneg :
    (a b : ℤ) → leb_ℤ (pos 0) a ≡ true → leb_ℤ b (pos 0) ≡ false → leb_ℤ (pos 0) (div a b) ≡ true
div_nonneg (pos a) (pos b) h k = ground arith
div_nonneg (negsuc a) b h k = absurd (ground arith)
div_nonneg (pos a) (negsuc b) h k = absurd (ground arith)

abbrev pub scaled : Float64
scaled = record {
  Float = ℤ;
  lit = lit;
  add = ◌+ℤ◌;
  sub = ◌-ℤ◌;
  mul = mul;
  div = div;
  sum = sum;
  le = leb_ℤ;
  le_refl = le_refl;
  le_trans = le_trans;
  le_total = le_total;
  lit_nonneg = lit_nonneg;
  lit_mono = lit_mono;
  add_grows = add_grows;
  sub_shrinks = sub_shrinks;
  mul_mono = mul_mono;
  div_mono = div_mono;
  add_mono = add_mono;
  mul_mono_left = mul_mono_left;
  mul_nonneg = mul_nonneg;
  div_nonneg = div_nonneg;
  whole_pos = whole_pos;
}
