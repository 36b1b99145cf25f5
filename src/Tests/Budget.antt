-- ===== src/Tests/Budget.antt =====
-- The ledger and the guard on one session, one virtual key and one organization.
use tkngate.Base.{
  ◌++◌, ◌≡◌, refl, ◌↔◌, true, false, ◌&&◌, some, List, [], ◌∷◌, if◌then◌else◌, arith,
}
use tkngate.Base.Int.{ℤ, pos, ◌+ℤ◌}
use tkngate.Base.Bytes.{bytes, ◌=s◌}
use tkngate.Float64.Scaled.{scaled}
use tkngate.Sql.{ok}
use tkngate.Budget.Models.{
  green, amber, red, BudgetStatus, Transaction, VirtualKeyRecord, OrganizationRecord, SessionState,
  Ledger,
}
use tkngate.Budget.Ledger.{
  Cluster, Runs, is_set, init_ledger, record_transaction, get_total_spend, get_session_spend,
  org_of_key, sum, costs,
}
use tkngate.Budget.Ledger.Spend.{session_costs, record_transaction-spend, record_transaction-ok_iff}
use tkngate.Budget.Ledger.Charges.{
  session_row_spend, key_spend, organization_spend, charged, belongs, record_transaction-charges,
}
use tkngate.Budget.Ledger.WellFormed.{
  Call, record_tx, register, revoke, ensure, run_calls, IsWellFormed,
}
use tkngate.Budget.Ledger.WellFormed.Preserved.{run_calls-init-IsWellFormed}
use tkngate.Budget.Guard.{
  BudgetConfig, Guard, checked, zone_of, threshold, status_of, check_virtual_key_budget,
}
use tkngate.Budget.Guard.Zones.{zone_of-thresholds}
use tkngate.Budget.Guard.Breaker.{find_key, record_all, breaker_stays_open, check_after_charge}

abbrev alone : Cluster
alone = record { enabled = false; reachable = false }

abbrev all_run : Runs
all_run = record { insert_row = true; session_row = true; key_row = true; organization_row = true }

-- The UPDATE of the key fails.
abbrev key_fails : Runs
key_fails = record {
  insert_row = true;
  session_row = true;
  key_row = false;
  organization_row = true;
}

abbrev key : VirtualKeyRecord scaled
key = record {
  id = 1;
  key_hash = bytes "h1";
  name = bytes "agent";
  allocated_budget = pos 10000;
  consumed_budget = pos 6000;
  org_id = pos 3;
  allowed_providers = [];
  current_state = green;
  created_at = 0;
}

abbrev org : OrganizationRecord scaled
org = record {
  id = 3;
  name = bytes "acme";
  budget_limit_usd = pos 90000;
  consumed_usd = pos 7000;
  created_at = 0;
}

abbrev session : SessionState scaled
session = record {
  session_id = bytes "s1";
  allocated_budget = pos 5000;
  consumed_budget = pos 0;
  current_state = green;
  created_at = 0;
}

abbrev ledger : Ledger scaled
ledger = record {
  transactions = [];
  sessions = session ∷ [];
  pool_nodes = [];
  organizations = org ∷ [];
  virtual_keys = key ∷ [];
  next_transaction = 1;
  next_organization = 4;
  next_key = 2;
  redis = [];
}

-- Two dollars and a half for the key.
abbrev tx : Transaction scaled
tx = record {
  id = 0;
  session_id = bytes "s1";
  virtual_key_hash = bytes "h1";
  provider = bytes "openai";
  model = bytes "gpt-4o";
  input_tokens = pos 100;
  output_tokens = pos 50;
  estimated_cost_usd = pos 2500;
  timestamp = 0;
}

abbrev config : BudgetConfig scaled
config = record {
  global_limit_usd = pos 0;
  max_session_cost_usd = pos 0;
  amber_threshold_pct = pos 75;
  red_threshold_pct = pos 80;
}

abbrev guard : Guard scaled
guard = record { ledger = some ledger; last_global_zone = green; alerts = [] }

record_transaction-spend_example :
    let l' = (record_transaction scaled alone all_run 9 tx ledger).1 in
    (get_total_spend scaled alone true l'
      ≡ ok (sum scaled (costs scaled ledger.transactions ++ (if true then pos 2500 ∷ [] else []))))
    × (get_session_spend scaled alone true (bytes "s1") l'
        ≡ ok (
            sum scaled (
              session_costs scaled (bytes "s1") ledger.transactions
              ++ (if true && (bytes "s1" =s bytes "s1") then pos 2500 ∷ [] else []))))
record_transaction-spend_example =
    record_transaction-spend scaled alone all_run 9 tx ledger (bytes "s1") refl

record_transaction-ok_iff_example :
    ((record_transaction scaled alone key_fails 9 tx ledger).0 ≡ ok tt) ↔ (
      (true && (if is_set (bytes "h1") then true else if is_set (bytes "s1") then true else true))
      ≡ true)
record_transaction-ok_iff_example = record_transaction-ok_iff scaled alone key_fails 9 tx ledger

record_transaction-charges_example :
    let l' = (record_transaction scaled alone key_fails 9 tx ledger).1 in
    (session_row_spend scaled (bytes "s1") l'
      ≡ charged scaled
          ((true && (is_set (bytes "s1") && true)) && (bytes "s1" =s bytes "s1"))
          (pos 2500)
          (session_row_spend scaled (bytes "s1") ledger))
    × (key_spend scaled (bytes "h1") l'
        ≡ charged scaled
            ((true && (is_set (bytes "h1") && false)) && (bytes "h1" =s bytes "h1"))
            (pos 2500)
            (key_spend scaled (bytes "h1") ledger))
    × (organization_spend scaled 3 l'
        ≡ charged scaled
            ((true && (is_set (bytes "h1") && true))
              && belongs scaled (org_of_key scaled (bytes "h1") ledger.virtual_keys) 3)
            (pos 2500)
            (organization_spend scaled 3 ledger))
record_transaction-charges_example =
    record_transaction-charges scaled alone key_fails 9 tx ledger (bytes "s1") (bytes "h1") 3

abbrev calls : List (Call scaled)
calls =
    register true 1 (bytes "h1") (bytes "agent") (pos 10000) (pos 0) []
    ∷ register true 2 (bytes "h1") (bytes "again") (pos 500) (pos 0) []
    ∷ ensure true 3 (bytes "s1") (pos 5000)
    ∷ record_tx alone all_run 4 tx
    ∷ revoke true (bytes "agent")
    ∷ []

run_calls-init-IsWellFormed_example :
    IsWellFormed scaled (run_calls scaled (init_ledger scaled) calls)
run_calls-init-IsWellFormed_example = run_calls-init-IsWellFormed scaled calls

zone_of-thresholds_example :
    let reached = λ (pct : ℤ). scaled.le (threshold scaled (pos 10000) pct) (pos 7600) in
    ((zone_of scaled config (pos 10000) (pos 7600) ≡ red) ↔ (reached (pos 80) ≡ true))
    × ((zone_of scaled config (pos 10000) (pos 7600) ≡ amber)
        ↔ ((reached (pos 75) ≡ true) × (reached (pos 80) ≡ false)))
    × ((zone_of scaled config (pos 10000) (pos 7600) ≡ green) ↔ (reached (pos 75) ≡ false))
zone_of-thresholds_example =
    zone_of-thresholds scaled config (pos 10000) (pos 7600) 75 80 refl refl (omega arith) refl

abbrev charged_ledger : Ledger scaled
charged_ledger = (record_transaction scaled alone all_run 9 tx ledger).1

charged_check :
    (check_virtual_key_budget scaled config true true
      (bytes "h1")
      (record guard { ledger = some charged_ledger })).0
    ≡ checked (
        status_of scaled config
          (pos 10000)
          (if bytes "h1" =s bytes "h1" then scaled.add (pos 6000) (pos 2500) else pos 6000))
unfolding find_key ◌=s◌ is_set
charged_check =
    check_after_charge scaled config alone all_run 9 tx true (bytes "h1") ledger guard key refl refl
      refl refl refl

abbrev tripped : BudgetStatus scaled
tripped =
    status_of scaled config (pos 10000)
      (if bytes "h1" =s bytes "h1" then scaled.add (pos 6000) (pos 2500) else pos 6000)

tripped-red : tripped.zone ≡ red
unfolding status_of zone_of threshold ◌=s◌ ◌+ℤ◌
tripped-red = refl

breaker_stays_open_example :
    (s' : BudgetStatus scaled) × ((check_virtual_key_budget scaled config true true
        (bytes "h1")
        (record guard {
          ledger = some (record_all scaled ((alone, all_run, 10, tx) ∷ []) charged_ledger);
        })).0
      ≡ checked s')
    × (s'.zone ≡ red)
breaker_stays_open_example =
    breaker_stays_open scaled config true (bytes "h1") charged_ledger
      (record guard { ledger = some charged_ledger }) tripped ((alone, all_run, 10, tx) ∷ []) refl
      charged_check tripped-red (refl, tt)
