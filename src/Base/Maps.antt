-- ===== src/Base/Maps.antt =====
-- Go's `map[string]V` as an association list, in the order of first insertion. Iterating over a Go
-- map takes some order; the models iterate in this one.
use Prim.Native.Nat.{◌≤◌, ◌+◌}
use mathlib.Core.Path.{◌≡◌, refl, subst}
use mathlib.Core.Logic.{inl, inr}
use mathlib.Core.Bool.{true, false}
use mathlib.Core.Option.{Option, none, some}
use mathlib.Core.List.{List, [], ◌∷◌}
use native.Mathlib.Omega.{arith}
use tkngate.Base.Tests.{Bool-cases, if◌then◌else◌}
use tkngate.Base.Lists.{length, All}
use tkngate.Base.Bytes.{Bytes, ◌=s◌, =s_iff, =s_refl}

abbrev pub Map {ℓ} : Type ℓ → Type ℓ
Map V = List (Bytes × V)

module _ {ℓ} {V : Type ℓ} where
  unfoldable pub lookup : Bytes → Map V → Option V
  lookup k [] = none
  lookup k ((j, v) ∷ m) = if j =s k then some v else lookup k m

  -- `m[k] = v`
  unfoldable pub insert : Bytes → V → Map V → Map V
  insert k v [] = (k, v) ∷ []
  insert k v ((j, w) ∷ m) = if j =s k then (j, v) ∷ m else (j, w) ∷ insert k v m

  -- `delete(m, k)`
  unfoldable pub erase : Bytes → Map V → Map V
  erase k [] = []
  erase k ((j, w) ∷ m) = if j =s k then erase k m else (j, w) ∷ erase k m

  pub lookup-insert :
      (k j : Bytes) (v : V) (m : Map V)
      → lookup j (insert k v m) ≡ (if k =s j then some v else lookup j m)
  unfolding lookup insert
  lookup-insert k j v [] = refl
  lookup-insert k j v ((i, w) ∷ m) =
      ground (arith, =s_iff k j, =s_iff i k, =s_iff i j, lookup-insert k j v m)

  pub lookup-erase :
      (k j : Bytes) (m : Map V) → lookup j (erase k m) ≡ (if k =s j then none else lookup j m)
  unfolding lookup erase
  lookup-erase k j [] = ground arith
  lookup-erase k j ((i, w) ∷ m) =
      ground (arith, =s_iff k j, =s_iff i k, =s_iff i j, lookup-erase k j m)

  pub erase-insert : (k : Bytes) (v : V) (m : Map V) → erase k (insert k v m) ≡ erase k m
  unfolding erase insert
  erase-insert k v [] = rw (=s_refl k)
  erase-insert k v ((i, w) ∷ m) = ground (arith, =s_refl k, erase-insert k v m)

  pub insert-insert : (k : Bytes) (v w : V) (m : Map V) → insert k v (insert k w m) ≡ insert k v m
  unfolding insert
  insert-insert k v w [] = rw (=s_refl k)
  insert-insert k v w ((i, u) ∷ m) = ground (arith, =s_refl k, insert-insert k v w m)

  pub erase-insert_other :
      (k j : Bytes) (v : V) (m : Map V)
      → (j =s k) ≡ false
      → erase k (insert j v m) ≡ insert j v (erase k m)
  unfolding erase insert
  erase-insert_other k j v [] h = rw h
  erase-insert_other k j v ((i, w) ∷ m) h =
      ground (arith, =s_iff i j, =s_iff i k, erase-insert_other k j v m h)

  pub length-erase-le : (k : Bytes) (m : Map V) → length (erase k m) ≤ length m
  unfolding erase
  length-erase-le k [] = omega arith
  length-erase-le k ((i, w) ∷ m) = ground (arith, length-erase-le k m)

  pub length-insert-le : (k : Bytes) (v : V) (m : Map V) → length (insert k v m) ≤ length m + 1
  unfolding insert
  length-insert-le k v [] = omega arith
  length-insert-le k v ((i, w) ∷ m) = ground (arith, length-insert-le k v m)

  -- A property of every value survives a write of such a value, and holds of what is found.
  pub All-insert {κ} :
      (P : V → Type κ) (k : Bytes) (v : V) (m : Map V)
      → P v
      → All (λ e. P e.1) m
      → All (λ e. P e.1) (insert k v m)
  unfolding insert
  All-insert P k v [] h a = (h, tt)
  All-insert P k v ((j, w) ∷ m) h a =
      elim (j =s k) as (λ b. All (λ e. P e.1) (if b then (j, v) ∷ m else (j, w) ∷ insert k v m)) [
        | true ↦ (h, a.1)
        | false ↦ (a.0, All-insert P k v m h a.1)
      ]

  pub lookup-All {κ} :
      (P : V → Type κ) (k : Bytes) (m : Map V) (v : V)
      → All (λ e. P e.1) m
      → lookup k m ≡ some v
      → P v
  unfolding lookup
  lookup-All P k [] v a e = absurd (ground arith)
  lookup-All P k ((j, w) ∷ m) v a e = elim (Bool-cases (j =s k)) [
    | inl hit ↦ let same : w ≡ v = ground arith in subst P same a.0
    | inr miss ↦ lookup-All P k m v a.1 (ground arith)
  ]
