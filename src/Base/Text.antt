-- ===== src/Base/Text.antt =====
-- Go's strings.TrimPrefix, strings.HasPrefix and strings.Contains, on the bytes of a text.
use mathlib.Core.Path.{◌≡◌, refl, ap}
use mathlib.Core.Bool.{Bool, true, false}
use mathlib.Core.List.{[], ◌∷◌, ◌++◌}
use mathlib.Core.Logic.{inl, inr}
use native.Mathlib.Omega.{arith}
use tkngate.Base.Tests.{◌==◌, Bool-cases, if◌then◌else◌}
use tkngate.Base.Bytes.{Bytes}

unfoldable pub has_prefix : Bytes → Bytes → Bool
has_prefix [] b = true
has_prefix (x ∷ p) [] = false
has_prefix (x ∷ p) (y ∷ b) = if x == y then has_prefix p b else false

-- `contains part b`: strings.Contains(b, part)
unfoldable pub contains : Bytes → Bytes → Bool
contains part [] = has_prefix part []
contains part (x ∷ b) =
    let later = contains part b in if has_prefix part (x ∷ b) then true else later

pub has_prefix-append : (p r : Bytes) → has_prefix p (p ++ r) ≡ true
unfolding has_prefix
has_prefix-append [] r = refl
has_prefix-append (x ∷ p) r = ground (arith, has_prefix-append p r)

pub rest_of_prefix : (p b : Bytes) → has_prefix p b ≡ true → (r : Bytes) × (b ≡ p ++ r)
unfolding has_prefix
rest_of_prefix [] b h = (b, refl)
rest_of_prefix (x ∷ p) [] h = absurd (ground arith)
rest_of_prefix (x ∷ p) (y ∷ b) h =
    let (r, e) = rest_of_prefix p b (ground arith) in (r, ground arith)

-- A text contains what stands anywhere in it, and nothing else.
pub contains-append : (before p r : Bytes) → contains p (before ++ (p ++ r)) ≡ true
unfolding contains has_prefix
contains-append [] [] [] = refl
contains-append [] [] (y ∷ r) = rw (has_prefix-append [] (y ∷ r)) refl
contains-append [] (x ∷ p) r = rw (has_prefix-append (x ∷ p) r) refl
contains-append (y ∷ before) p r = ground (arith, contains-append before p r)

pub parts_of_contains :
    (p b : Bytes)
    → contains p b ≡ true
    → (before : Bytes) × (after : Bytes) × (b ≡ before ++ (p ++ after))
unfolding contains has_prefix
parts_of_contains p [] h = let (r, e) = rest_of_prefix p [] h in ([], r, e)
parts_of_contains p (x ∷ b) h = elim (Bool-cases (has_prefix p (x ∷ b))) [
  | inl here ↦ let (r, e) = rest_of_prefix p (x ∷ b) here in ([], r, e)
  | inr further ↦
      let (before, after, e) = parts_of_contains p b (ground arith) in
      (x ∷ before, after, ap (λ t. x ∷ t) e)
]
