-- ===== src/Budget/Guard/Zones.antt =====
-- The traffic light as a function of the amount spent.
use tkngate.Base.{ℕ, ◌≡◌, ◌≤◌, ◌↔◌, true, false, arith}
use tkngate.Base.Int.{ℤ, pos}
use tkngate.Float64.{Float64, whole}
use tkngate.Budget.Models.{BudgetZone, green, amber, red}
use tkngate.Budget.Guard.{BudgetConfig, of_int, threshold, zone_of}

abbrev pub severity : BudgetZone → ℕ
severity green = 0
severity amber = 1
severity red = 2

module _ (F : Float64) where
  -- Spending more never lowers the zone.
  pub zone_of_mono :
      (cfg : BudgetConfig F) (limit s s' : F.Float)
      → F.le s s' ≡ true
      → severity (zone_of F cfg limit s) ≤ severity (zone_of F cfg limit s')
  unfolding zone_of
  zone_of_mono cfg limit s s' h = ground (
    arith,
    F.le_trans (threshold F limit cfg.red_threshold_pct) s s',
    F.le_trans (threshold F limit cfg.amber_threshold_pct) s s',
  )

  of_int_mono : (m n : ℕ) → m ≤ n → F.le (of_int F (pos m)) (of_int F (pos n)) ≡ true
  unfolding of_int
  of_int_mono m n h = F.lit_mono m n 1 h

  threshold_mono :
      (limit : F.Float) (m n : ℕ)
      → F.le (whole F 0) limit ≡ true
      → m ≤ n
      → F.le (threshold F limit (pos m)) (threshold F limit (pos n)) ≡ true
  unfolding threshold
  threshold_mono limit m n h le =
      F.mul_mono limit _ _ h
        (F.div_mono (whole F 100) _ _ (F.lit_mono 0 100 1 (omega arith)) (of_int_mono m n le))

  -- With percentages in order, 0 <= amber <= red, and a limit that is not negative, the zone says
  -- exactly which thresholds the amount has reached: red from the red one, amber from the amber one
  -- up to the red one, green below both.
  pub zone_of-thresholds :
      (cfg : BudgetConfig F) (limit spent : F.Float) (m n : ℕ)
      → cfg.amber_threshold_pct ≡ pos m
      → cfg.red_threshold_pct ≡ pos n
      → m ≤ n
      → F.le (whole F 0) limit ≡ true
      → let reached = λ (pct : ℤ). F.le (threshold F limit pct) spent in
        ((zone_of F cfg limit spent ≡ red) ↔ (reached (pos n) ≡ true))
        × ((zone_of F cfg limit spent ≡ amber)
            ↔ ((reached (pos m) ≡ true) × (reached (pos n) ≡ false)))
        × ((zone_of F cfg limit spent ≡ green) ↔ (reached (pos m) ≡ false))
  unfolding zone_of
  zone_of-thresholds cfg limit spent m n em en le h = ground (
    arith,
    threshold_mono limit m n h le,
    F.le_trans (threshold F limit (pos m)) (threshold F limit (pos n)) spent,
  )
