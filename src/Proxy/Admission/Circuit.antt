-- ===== src/Proxy/Admission/Circuit.antt =====
-- The circuit breaker of a virtual key, from the ledger to the admission of requests.
use tkngate.Base.{ℕ, ◌≡◌, refl, sym, ◌∙◌, Bool, true, false, some, List, arith}
use tkngate.Base.Bytes.{Bytes}
use tkngate.Float64.{Float64}
use tkngate.Budget.Models.{BudgetStatus, Transaction, Ledger, red}
use tkngate.Budget.Ledger.{Cluster, Runs}
use tkngate.Budget.Guard.{
  BudgetConfig, Guard, Check, checked, refused, check_budget, check_virtual_key_budget, same_zone,
}
use tkngate.Budget.Guard.Breaker.{
  check_budget-ledger, check_virtual_key_budget-status, breaker_stays_open, record_all, CostsNonneg,
}
use tkngate.Limiter.{Rate, RateLimitConfig}
use tkngate.Proxy.Admission.{
  Verifier, Queries, Caller, Identity, Gate, admitted, key_exhausted, auth_header, virtual_key,
  by_zone, admit,
}
use tkngate.Proxy.Admission.Keys.{by_zone-admitted, admit-Passed}

module _ (F : Float64) (R : Rate F) (V : Verifier) (cfg : BudgetConfig F) (q : Queries) where
  by_zone-red :
      (who id : Identity) (s : BudgetStatus F) (c : Check (BudgetStatus F) × Guard F)
      → c.0 ≡ checked s
      → s.zone ≡ red
      → ¬ ((by_zone F R V key_exhausted who c).0 ≡ admitted id)
  unfolding by_zone same_zone
  by_zone-red who id s (refused e, g) h z a = ground arith
  by_zone-red who id s (checked t, g) h z a = ground arith

  pub check-reads_ledger :
      (run run' : Bool) (hash : Bytes) (l : Ledger F) (g g' : Guard F)
      → g.ledger ≡ some l
      → g'.ledger ≡ some l
      → (check_virtual_key_budget F cfg true run hash g).0
        ≡ (check_virtual_key_budget F cfg true run' hash g').0
  check-reads_ledger run run' hash l g g' e e' =
      check_virtual_key_budget-status F cfg run hash l g e
      ∙ sym (check_virtual_key_budget-status F cfg run' hash l g' e')

  -- Once the check of a key has reported red, no request is admitted under that key any more,
  -- whatever transactions with costs that are not negative follow.
  pub tripped_key_stays_out :
      (c : Cluster) (rl : RateLimitConfig) (now : ℕ) (r : Caller) (gate : Gate F R V)
      (run_update : Bool) (hash : Bytes) (l : Ledger F) (g : Guard F) (s : BudgetStatus F)
      (txs : List (Cluster × Runs × ℕ × Transaction F)) (key : Bytes) (id : Identity)
      → V.cloud_enabled ≡ false
      → q.key_check ≡ true
      → g.ledger ≡ some l
      → (check_virtual_key_budget F cfg true run_update hash g).0 ≡ checked s
      → s.zone ≡ red
      → CostsNonneg F txs
      → gate.guard.ledger ≡ some (record_all F txs l)
      → virtual_key (auth_header r) ≡ some key
      → (admit F R V cfg q c rl now r gate).0 ≡ admitted id
      → ¬ (id.key_hash ≡ hash)
  tripped_key_stays_out c rl now r gate run_update hash l g s txs key id off run e red_now z nonneg
        gl k a same =
      let later = record_all F txs l in
      let p = admit-Passed F R V cfg q c rl now r gate later key id off k gl a in
      let (s', e', z') = breaker_stays_open F cfg run_update hash l g s txs e red_now z nonneg in
      let row_hash : p.row.key_hash ≡ hash =
        sym (by_zone-admitted F R V cfg q _ id _ p.in_budget).0 ∙ same in
      let reported =
        check-reads_ledger q.key_update run_update p.row.key_hash later
          (check_budget F cfg c q.total gate.guard).1 (record g { ledger = some later })
          (check_budget-ledger F cfg c q.total gate.guard ∙ gl) refl in
      by_zone-red _ id s' _ (rw run (reported ∙ rw row_hash e')) z' p.in_budget
