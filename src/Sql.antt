-- ===== src/Sql.antt =====
-- The SQL statements that internal/budget and internal/mesh send to SQLite, on a table that is the
-- list of its rows in the order of insertion, and what the driver reports.
use mathlib.Core.Option
use tkngate.Base.{
  refl, ◌⊎◌, inl, inr, Option, some, find?, ◌≡◌, Bool, true, false, List, [], ◌∷◌, ◌++◌, arith, All,
  any, if◌then◌else◌,
}

-- Why a call failed: the driver refused a statement, a UNIQUE column would hold a value twice, or
-- `sql.ErrNoRows`.
pub data DbError : Type 0 where
  failed unique_violation no_rows : DbError

pub data Result {ℓ} (A : Type ℓ) : Type ℓ where
  ok : A → Result A
  err : DbError → Result A

pub Result-cases {ℓ} :
    {A : Type ℓ} (r : Result A) → ((a : A) × (r ≡ ok a)) ⊎ ((e : DbError) × (r ≡ err e))
Result-cases (ok a) = inl (a, refl)
Result-cases (err e) = inr (e, refl)

module _ {ℓ} {A : Type ℓ} where
  -- UPDATE … SET f WHERE p
  unfoldable pub update : (A → Bool) → (A → A) → List A → List A
  update p f [] = []
  update p f (x ∷ xs) = (if p x then f x else x) ∷ update p f xs

  -- DELETE … WHERE p
  unfoldable pub delete : (A → Bool) → List A → List A
  delete p [] = []
  delete p (x ∷ xs) = if p x then delete p xs else x ∷ delete p xs

  -- No two rows agree in a column, which `same` compares.
  abbrev pub Distinct : (A → A → Bool) → List A → Type 0
  Distinct same [] = Unit
  Distinct same (x ∷ xs) = All (λ y. same x y ≡ false) xs × Distinct same xs

  pub All-update {κ} :
      (P : A → Type κ) (p : A → Bool) (f : A → A)
      → ((a : A) → P a → P (f a))
      → (xs : List A) → All P xs
      → All P (update p f xs)
  unfolding update
  All-update P p f keep [] h = tt
  All-update P p f keep (x ∷ xs) h =
      elim (p x) as (λ b. P (if b then f x else x) × All P (update p f xs)) [
        | true ↦ (keep x h.0, All-update P p f keep xs h.1)
        | false ↦ (h.0, All-update P p f keep xs h.1)
      ]

  pub All-delete {κ} :
      (P : A → Type κ) (p : A → Bool) (xs : List A) → All P xs → All P (delete p xs)
  unfolding delete
  All-delete P p [] h = tt
  All-delete P p (x ∷ xs) h =
      elim (p x) as (λ b. All P (if b then delete p xs else x ∷ delete p xs)) [
        | true ↦ All-delete P p xs h.1
        | false ↦ (h.0, All-delete P p xs h.1)
      ]

  -- What a failed search for a row says of every row.
  pub any-All : (p : A → Bool) (xs : List A) → any p xs ≡ false → All (λ x. p x ≡ false) xs
  any-All p [] h = tt
  any-All p (x ∷ xs) h = ground (arith, any-All p xs)

  pub Distinct-delete :
      (same : A → A → Bool) (p : A → Bool) (xs : List A)
      → Distinct same xs
      → Distinct same (delete p xs)
  unfolding delete
  Distinct-delete same p [] h = tt
  Distinct-delete same p (x ∷ xs) h =
      elim (p x) as (λ b. Distinct same (if b then delete p xs else x ∷ delete p xs)) [
        | true ↦ Distinct-delete same p xs h.1
        | false ↦ (All-delete (λ y. same x y ≡ false) p xs h.0, Distinct-delete same p xs h.1)
      ]

  -- An update that leaves the column alone keeps the rows distinct.
  pub Distinct-update :
      (same : A → A → Bool) (p : A → Bool) (f : A → A)
      → ((a b : A) → same (f a) b ≡ same a b)
      → ((a b : A) → same a (f b) ≡ same a b)
      → (xs : List A) → Distinct same xs
      → Distinct same (update p f xs)
  unfolding update
  Distinct-update same p f left right [] h = tt
  Distinct-update same p f left right (x ∷ xs) h =
      let apart : All (λ y. same x y ≡ false) (update p f xs) =
        All-update (λ y. same x y ≡ false) p f (λ a e. rw (right x a) e) xs h.0 in
      let apart' : All (λ y. same (f x) y ≡ false) (update p f xs) =
        All-update (λ y. same (f x) y ≡ false) p f (λ a e. rw (right (f x) a) e) xs (go xs h.0) in
      elim (p x) as (λ b. Distinct same ((if b then f x else x) ∷ update p f xs)) [
        | true ↦ (apart', Distinct-update same p f left right xs h.1)
        | false ↦ (apart, Distinct-update same p f left right xs h.1)
      ]
    where
      go : (ys : List A) → All (λ y. same x y ≡ false) ys → All (λ y. same (f x) y ≡ false) ys
      go [] k = tt
      go (y ∷ ys) k = (rw (left x y) k.0, go ys k.1)

  pub Distinct-append :
      (same : A → A → Bool) (xs : List A) (y : A)
      → All (λ x. same x y ≡ false) xs
      → Distinct same xs
      → Distinct same (xs ++ y ∷ [])
  Distinct-append same [] y apart h = (tt, tt)
  Distinct-append same (x ∷ xs) y apart h = (go xs h.0, Distinct-append same xs y apart.1 h.1)
    where
      go :
          (ys : List A)
          → All (λ z. same x z ≡ false) ys
          → All (λ z. same x z ≡ false) (ys ++ y ∷ [])
      go [] k = (apart.0, tt)
      go (z ∷ ys) k = (k.0, go ys k.1)

-- An update of the rows that pass `p`, seen through the first row that passes `q` and one column of
-- it: it changes that column if the rows that pass `q` pass `p`, and not if they do not.
module _ {ℓ κ} {A : Type ℓ} {V : Type κ} (val : A → V) where
  pub column : (A → Bool) → List A → Option V
  column q xs = Option.map val (find? q xs)

  pub column-update :
      (q p : A → Bool) (f : A → A) (g : V → V) (b : Bool)
      → ((x : A) → q (f x) ≡ q x)
      → ((x : A) → val (f x) ≡ g (val x))
      → ((x : A) → q x ≡ true → p x ≡ b)
      → (xs : List A)
      → column q (update p f xs) ≡ Option.map (λ v. if b then g v else v) (column q xs)
  unfolding column update
  column-update q p f g b same_q same_v covers [] = refl
  column-update q p f g b same_q same_v covers (x ∷ xs) =
      ground (arith, same_q x, same_v x, covers x, column-update q p f g b same_q same_v covers xs)

-- The first row that passes `q` after an update that does not change which rows pass it.
pub find?-update {ℓ} :
    {A : Type ℓ} (q p : A → Bool) (f : A → A)
    → ((x : A) → q (f x) ≡ q x)
    → (xs : List A)
    → find? q (update p f xs) ≡ Option.map (λ x. if p x then f x else x) (find? q xs)
unfolding update
find?-update q p f same [] = refl
find?-update q p f same (x ∷ xs) = ground (arith, same x, find?-update q p f same xs)

-- The row that a search returns passes the test.
pub find?-true {ℓ} :
    {A : Type ℓ} (p : A → Bool) (xs : List A) {x : A} → find? p xs ≡ some x → p x ≡ true
find?-true p [] h = absurd (ground arith)
find?-true p (y ∷ xs) {x} h = ground (arith, find?-true p xs {x = x})
