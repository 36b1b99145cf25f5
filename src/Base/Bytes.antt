-- ===== src/Base/Bytes.antt =====
-- Go's `string` and `[]byte`: a list of byte values, with the equality test `==`.
use Prim.Native.Nat.{ℕ}
use Prim.Native.Char.{code}
use Prim.Native.String.{String}
use mathlib.Core.Path.{◌≡◌, refl}
use mathlib.Core.Logic.{◌↔◌}
use mathlib.Core.Bool.{Bool, true, false, ◌&&◌}
use mathlib.Core.List.{List, [], ◌∷◌}
use native.Mathlib.Omega.{arith}
use tkngate.Base.Tests.{◌==◌}

abbrev pub Bytes : Type 0
Bytes = List ℕ

-- The bytes of an ASCII literal.
abbrev pub bytes : String → Bytes
bytes String.[] = []
bytes (String.◌∷◌ c s) = code c ∷ bytes s

-- `a == b` of Go on strings.
infix 50 ◌=s◌
unfoldable pub ◌=s◌ : Bytes → Bytes → Bool
[] =s [] = true
[] =s (y ∷ ys) = false
(x ∷ xs) =s [] = false
(x ∷ xs) =s (y ∷ ys) = x == y && (xs =s ys)

pub =s_refl : (a : Bytes) → (a =s a) ≡ true
unfolding ◌=s◌
=s_refl [] = refl
=s_refl (x ∷ xs) = ground (arith, =s_refl xs)

pub =s_eq : (a b : Bytes) → (a =s b) ≡ true → a ≡ b
unfolding ◌=s◌
=s_eq [] [] h = refl
=s_eq [] (y ∷ ys) h = cc
=s_eq (x ∷ xs) [] h = cc
=s_eq (x ∷ xs) (y ∷ ys) h = ground (arith, =s_eq xs ys)

pub =s_iff : (a b : Bytes) → ((a =s b) ≡ true) ↔ (a ≡ b)
=s_iff a b = (=s_eq a b, λ e. rw e (=s_refl b))
