-- ===== src/Tokenizer.antt =====
-- internal/tokenizer/counter.go: the estimate of the tokens of a text and the prices. `runes` of a
-- text is what Go's range loop over it yields; UTF-8 decoding and the white space and the lower case
-- of Unicode are parameters.
pub mod Prices
use tkngate.Base.{
  ℕ, zero, suc, ◌+◌, ◌*◌, ◌/◌, Bool, true, false, not, ◌||◌, Option, none, some, List, [], ◌∷◌,
  length, leb, ◌==◌, if◌then◌else◌,
}
use tkngate.Base.Int.{ℤ, pos}
use tkngate.Base.Bytes.{Bytes, bytes, ◌=s◌}
use tkngate.Base.Text.{contains}
use tkngate.Float64.{Float64, whole, lt}
use tkngate.Budget.Guard.{of_int}

pub record Unicode : Type 0 where
  pub runes : Bytes → List ℕ
  pub trim_space : Bytes → Bytes
  pub to_lower : Bytes → Bytes

-- `max(1, n)`
unfoldable pub at_least_1 : ℕ → ℕ
at_least_1 n = if leb 1 n then n else 1

-- `trimmed[:n]`
unfoldable pub first_bytes : ℕ → Bytes → Bytes
first_bytes zero b = []
first_bytes (suc n) [] = []
first_bytes (suc n) (x ∷ b) = x ∷ first_bytes n b

is_special : ℕ → Bool
is_special c =
    c == 123
    || c == 125
    || c == 91
    || c == 93
    || c == 58
    || c == 34
    || c == 44
    || c == 59
    || c == 40
    || c == 41

special_count : List ℕ → ℕ
unfolding is_special
special_count [] = 0
special_count (c ∷ cs) = let rest = special_count cs in if is_special c then suc rest else rest

module _ (F : Float64) (U : Unicode) where
  dense : Bytes → Bool
  unfolding special_count
  dense sample =
      lt F (F.lit 15 100)
        (F.div (whole F (special_count (U.runes sample))) (whole F (length sample)))

  is_code : Bytes → Bool
  unfolding dense first_bytes
  is_code [] = false
  is_code (c ∷ b) = if c == 123 || c == 91 then true else dense (first_bytes 500 (c ∷ b))

  unfoldable pub looks_like_code : Bytes → Bool
  unfolding is_code
  looks_like_code text = is_code (U.trim_space text)

  unfoldable pub count : Bytes → Bytes → ℕ
  unfolding at_least_1
  count [] model = 0
  count (c ∷ text) model =
      let char_count = length (U.runes (c ∷ text)) in
      if looks_like_code (c ∷ text)
      then at_least_1 (char_count * 10 / 32)
      else at_least_1 (char_count / 4)

  -- The prices of a thousand input and output tokens.
  unfoldable pub prices : Bytes → Bytes → F.Float × F.Float
  prices provider model =
      if provider =s bytes "openai"
      then (if contains (bytes "gpt-5.6") model
          then (F.lit 5 1000, F.lit 15 1000)
          else if contains (bytes "gpt-5.6-turbo") model
          then (F.lit 5 10000, F.lit 15 10000)
          else (F.lit 5 1000, F.lit 15 1000))
      else if provider =s bytes "anthropic"
      then (if contains (bytes "haiku") model
          then (F.lit 25 100000, F.lit 125 100000)
          else if contains (bytes "sonnet") model
          then (F.lit 3 1000, F.lit 15 1000)
          else if contains (bytes "opus") model
          then (F.lit 15 1000, F.lit 75 1000)
          else (F.lit 3 1000, F.lit 15 1000))
      else if provider =s bytes "deepseek"
      then (F.lit 14 100000, F.lit 28 100000)
      else if provider =s bytes "kimi"
      then (F.lit 12 10000, F.lit 12 10000)
      else if provider =s bytes "groq"
      then (F.lit 5 100000, F.lit 8 100000)
      else (F.lit 1 1000, F.lit 2 1000)

  unfoldable pub estimate_cost : Bytes → Bytes → ℤ → ℤ → F.Float
  unfolding of_int
  estimate_cost provider model input_tokens output_tokens =
      let price = prices (U.to_lower provider) (U.to_lower model) in
      F.add (F.mul (F.div (of_int F input_tokens) (whole F 1000)) price.0)
        (F.mul (F.div (of_int F output_tokens) (whole F 1000)) price.1)
