-- ===== src/Tokenizer/Prices.antt =====
-- The prices: a cost is never negative and grows with the tokens.
use tkngate.Base.{ℕ, ◌≤◌, ◌≡◌, Bool, true, false, if◌then◌else◌}
use tkngate.Base.Int.{pos}
use tkngate.Base.Bytes.{Bytes, bytes, ◌=s◌}
use tkngate.Base.Text.{contains}
use tkngate.Float64.{Float64, whole}
use tkngate.Budget.Guard.{of_int}
use tkngate.Tokenizer.{Unicode, prices, estimate_cost}

module _ (F : Float64) (U : Unicode) where
  abbrev Nonneg : F.Float → Type 0
  Nonneg x = F.le (whole F 0) x ≡ true

  if-Nonneg :
      (b : Bool) (x y : F.Float × F.Float)
      → Nonneg x.0 × Nonneg x.1
      → Nonneg y.0 × Nonneg y.1
      → Nonneg (if b then x else y).0 × Nonneg (if b then x else y).1
  if-Nonneg true x y h k = h
  if-Nonneg false x y h k = k

  literals-Nonneg : (p q r s : ℕ) → Nonneg (F.lit p q) × Nonneg (F.lit r s)
  literals-Nonneg p q r s = (F.lit_nonneg p q, F.lit_nonneg r s)

  prices-Nonneg :
      (provider model : Bytes)
      → Nonneg (prices F U provider model).0 × Nonneg (prices F U provider model).1
  unfolding prices
  prices-Nonneg provider model =
      let l = literals-Nonneg in
      if-Nonneg (provider =s bytes "openai") _ _
        (if-Nonneg (contains (bytes "gpt-5.6") model) _ _ (l _ _ _ _)
          (if-Nonneg (contains (bytes "gpt-5.6-turbo") model) _ _ (l _ _ _ _) (l _ _ _ _)))
        (if-Nonneg (provider =s bytes "anthropic") _ _
          (if-Nonneg (contains (bytes "haiku") model) _ _ (l _ _ _ _) (
            if-Nonneg (contains (bytes "sonnet") model) _ _ (l _ _ _ _)
              (if-Nonneg (contains (bytes "opus") model) _ _ (l _ _ _ _) (l _ _ _ _))))
          (if-Nonneg (provider =s bytes "deepseek") _ _ (l _ _ _ _) (
            if-Nonneg (provider =s bytes "kimi") _ _ (l _ _ _ _)
              (if-Nonneg (provider =s bytes "groq") _ _ (l _ _ _ _) (l _ _ _ _)))))

  share_mono :
      (price : F.Float) (m n : ℕ)
      → Nonneg price
      → m ≤ n
      → F.le
          (F.mul (F.div (of_int F (pos m)) (whole F 1000)) price)
          (F.mul (F.div (of_int F (pos n)) (whole F 1000)) price)
        ≡ true
  unfolding of_int
  share_mono price m n h le =
      F.mul_mono_left price _ _ h
        (F.div_mono (whole F 1000) _ _ (F.lit_nonneg 1000 1) (F.lit_mono m n 1 le))

  share-Nonneg :
      (price : F.Float) (n : ℕ)
      → Nonneg price
      → Nonneg (F.mul (F.div (of_int F (pos n)) (whole F 1000)) price)
  unfolding of_int
  share-Nonneg price n h =
      F.mul_nonneg _ price
        (F.div_nonneg (whole F n) (whole F 1000) (F.lit_nonneg n 1) (F.whole_pos 999)) h

  -- The estimated cost of a request for natural counts is not negative, and more
  -- input or output tokens of the same model never cost less.
  pub estimate_cost_mono :
      (provider model : Bytes) (i o i' o' : ℕ)
      → i ≤ i'
      → o ≤ o'
      → (F.le (whole F 0) (estimate_cost F U provider model (pos i) (pos o)) ≡ true)
        × (F.le
              (estimate_cost F U provider model (pos i) (pos o))
              (estimate_cost F U provider model (pos i') (pos o'))
            ≡ true)
  unfolding estimate_cost
  estimate_cost_mono provider model i o i' o' h k =
      let (p, q) = prices-Nonneg (U.to_lower provider) (U.to_lower model) in
      (
        F.le_trans _ _ _ (share-Nonneg _ i p) (F.add_grows _ _ (share-Nonneg _ o q)),
        F.add_mono _ _ _ _ (share_mono _ i i' p h) (share_mono _ o o' q k),
      )
