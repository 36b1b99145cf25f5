-- ===== src/Budget/Ledger/Reports.antt =====
-- internal/budget/ledger.go: the two reports on the transactions. A day is 86400 seconds.
use tkngate.Base.{
  ℕ, zero, suc, ◌/◌, Bool, List, [], ◌∷◌, filter, map, ltb, leb, ◌==◌, if◌then◌else◌,
}
use tkngate.Base.Int.{ℤ, pos, negsuc, ◌-ℤ◌, leb_ℤ}
use tkngate.Base.Bytes.{Bytes, ◌=s◌}
use tkngate.Float64.{Float64}
use tkngate.Sql.{failed, Result, ok, err}
use tkngate.Budget.Models.{Transaction, Ledger}
use tkngate.Budget.Ledger.{is_set}

-- `LIMIT ?`, where a negative number is no limit.
take {ℓ} : {A : Type ℓ} → ℕ → List A → List A
take zero xs = []
take (suc n) [] = []
take (suc n) (x ∷ xs) = x ∷ take n xs

limited {ℓ} : {A : Type ℓ} → ℤ → List A → List A
unfolding take
limited (pos n) xs = take n xs
limited (negsuc n) xs = xs

module _ (F : Float64) where
  pub record DailySpend : Type 0 where
    pub date : ℕ
    pub spend_usd : F.Float

  -- `ORDER BY timestamp DESC`, rows of one time in the order of insertion.
  place : Transaction F → List (Transaction F) → List (Transaction F)
  place tx [] = tx ∷ []
  place tx (x ∷ xs) = if leb x.timestamp tx.timestamp then tx ∷ x ∷ xs else x ∷ place tx xs

  newest_first : List (Transaction F) → List (Transaction F)
  unfolding place
  newest_first [] = []
  newest_first (tx ∷ txs) = place tx (newest_first txs)

  pub get_transactions : Bool → Bytes → ℤ → Ledger F → Result (List (Transaction F))
  unfolding newest_first limited
  get_transactions run hash limit l =
      let rows =
        if is_set hash
        then filter (λ tx. tx.virtual_key_hash =s hash) l.transactions
        else l.transactions in
      if run then ok (limited limit (newest_first rows)) else err failed

  day_of : Transaction F → ℕ
  day_of tx = tx.timestamp / 86400

  -- The days of the rows, each once, in ascending order.
  add_day : ℕ → List ℕ → List ℕ
  add_day day [] = day ∷ []
  add_day day (d ∷ ds) =
      if d == day then d ∷ ds else if ltb day d then day ∷ d ∷ ds else d ∷ add_day day ds

  days_of : List (Transaction F) → List ℕ
  unfolding add_day day_of
  days_of [] = []
  days_of (tx ∷ txs) = add_day (day_of tx) (days_of txs)

  spend_on : List (Transaction F) → ℕ → DailySpend
  unfolding day_of
  spend_on txs day = record {
    date = day;
    spend_usd = F.sum (map (λ tx. tx.estimated_cost_usd) (filter (λ tx. day_of tx == day) txs));
  }

  -- `GROUP BY d ORDER BY d ASC`
  by_day : List (Transaction F) → List DailySpend
  unfolding days_of spend_on
  by_day txs = map (spend_on txs) (days_of txs)

  pub get_daily_spend : Bool → ℕ → ℤ → Ledger F → Result (List DailySpend)
  unfolding by_day
  get_daily_spend run now days l =
      let since = pos (now / 86400) -ℤ days in
      if run
      then ok (by_day (filter (λ tx. leb_ℤ since (pos (day_of tx))) l.transactions))
      else err failed
