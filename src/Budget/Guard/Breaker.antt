-- ===== src/Budget/Guard/Breaker.antt =====
-- The circuit breaker of a virtual key, from the ledger to the guard.
use mathlib.Core.Option
use tkngate.Base.{
  ℕ, ◌≡◌, refl, sym, ◌∙◌, ap, ◌≤◌, Bool, true, Option, none, some, List, [], ◌∷◌, find?,
  if◌then◌else◌, arith, Bool-cases, inl, inr,
}
use tkngate.Base.Bytes.{Bytes, ◌=s◌, =s_iff}
use tkngate.Float64.{Float64, whole}
use tkngate.Sql.{find?-true}
use tkngate.Budget.Models.{
  BudgetZone, green, amber, red, BudgetStatus, Transaction, VirtualKeyRecord, Ledger,
}
use tkngate.Budget.Ledger.{Cluster, Runs, is_set, record_transaction}
use tkngate.Budget.Ledger.Accounts.{get_virtual_keys}
use tkngate.Budget.Ledger.Charges.{record_transaction-find_key}
use tkngate.Budget.Guard.{
  BudgetConfig, Guard, Check, checked, refused, key_not_found, status_of, zone_of, check_found,
  check_keys, check_key, check_budget, check_ledger, check_total, note_global,
  check_virtual_key_budget,
}
use tkngate.Budget.Guard.Zones.{severity, zone_of_mono}

module _ (F : Float64) where
  unfoldable pub find_key : Bytes → Ledger F → Option (VirtualKeyRecord F)
  find_key hash l = find? (λ k. k.key_hash =s hash) l.virtual_keys

  unfoldable pub key_status : BudgetConfig F → Option (VirtualKeyRecord F) → Check (BudgetStatus F)
  key_status cfg none = refused key_not_found
  key_status cfg (some k) = checked (status_of F cfg k.allocated_budget k.consumed_budget)

  -- What the check reports, by the row of the key.
  pub check_virtual_key_budget-status :
      (cfg : BudgetConfig F) (run_update : Bool) (hash : Bytes) (l : Ledger F) (g : Guard F)
      → g.ledger ≡ some l
      → (check_virtual_key_budget F cfg true run_update hash g).0 ≡ key_status cfg (find_key hash l)
  unfolding check_virtual_key_budget check_key check_keys check_found get_virtual_keys find_key
      key_status
  check_virtual_key_budget-status cfg run_update hash l g e = ground arith

  pub check_budget-ledger :
      (cfg : BudgetConfig F) (c : Cluster) (run : Bool) (g : Guard F)
      → (check_budget F cfg c run g).1.ledger ≡ g.ledger
  unfolding check_budget check_ledger check_total note_global
  check_budget-ledger cfg c run g = ground arith

  -- A later row of the same key: the same limit, and no less consumed.
  abbrev Grown : Option (VirtualKeyRecord F) → Option (VirtualKeyRecord F) → Type 0
  Grown none o = o ≡ none
  Grown (some k) o =
      (k' : VirtualKeyRecord F) × (o ≡ some k')
      × (k'.allocated_budget ≡ k.allocated_budget)
      × (F.le k.consumed_budget k'.consumed_budget ≡ true)

  charged_if-Grown :
      (p : VirtualKeyRecord F → Bool) (cost : F.Float) (o : Option (VirtualKeyRecord F))
      → F.le (whole F 0) cost ≡ true
      → Grown o (
          Option.map
            (λ k. if p k then record k { consumed_budget = F.add k.consumed_budget cost } else k)
            o)
  charged_if-Grown p cost none h = refl
  charged_if-Grown p cost (some k) h = elim (Bool-cases (p k)) [
    | inl e ↦ (
      record k { consumed_budget = F.add k.consumed_budget cost },
      rw e refl,
      refl,
      F.add_grows k.consumed_budget cost h,
    )
    | inr e ↦ (k, rw e refl, refl, F.le_refl k.consumed_budget)
  ]

  record_transaction-Grown :
      (c : Cluster) (runs : Runs) (now : ℕ) (tx : Transaction F) (l : Ledger F) (h : Bytes)
      → F.le (whole F 0) tx.estimated_cost_usd ≡ true
      → Grown (find_key h l) (find_key h (record_transaction F c runs now tx l).1)
  unfolding find_key
  record_transaction-Grown c runs now tx l h pos =
      rw (record_transaction-find_key F c runs now tx l h)
        (charged_if-Grown _ tx.estimated_cost_usd (find? (λ k. k.key_hash =s h) l.virtual_keys) pos)

  -- The ledger after the transactions of some requests, each with what the driver and Redis did.
  unfoldable pub record_all : List (Cluster × Runs × ℕ × Transaction F) → Ledger F → Ledger F
  record_all [] l = l
  record_all ((c, runs, now, tx) ∷ rest) l =
      record_all rest (record_transaction F c runs now tx l).1

  -- No transaction has a negative cost.
  abbrev pub CostsNonneg : List (Cluster × Runs × ℕ × Transaction F) → Type 0
  CostsNonneg [] = Unit
  CostsNonneg ((c, runs, now, tx) ∷ rest) =
      (F.le (whole F 0) tx.estimated_cost_usd ≡ true) × CostsNonneg rest

  abbrev IsTripped : BudgetConfig F → Option (VirtualKeyRecord F) → Type 0
  IsTripped cfg o =
      (k : VirtualKeyRecord F) × (o ≡ some k)
      × (zone_of F cfg k.allocated_budget k.consumed_budget ≡ red)

  red_of_severity : (z : BudgetZone) → severity red ≤ severity z → z ≡ red
  red_of_severity green h = absurd (omega arith)
  red_of_severity amber h = absurd (omega arith)
  red_of_severity red h = refl

  Grown-IsTripped :
      (cfg : BudgetConfig F) (o o' : Option (VirtualKeyRecord F))
      → Grown o o'
      → IsTripped cfg o
      → IsTripped cfg o'
  Grown-IsTripped cfg none o' g (k, e, z) = absurd (ground arith)
  Grown-IsTripped cfg (some j) o' (k', e', a, h) (k, e, z) =
      let same : j ≡ k = ground arith in
      let was_red : zone_of F cfg j.allocated_budget j.consumed_budget ≡ red = rw same z in
      let grown = zone_of_mono F cfg j.allocated_budget j.consumed_budget k'.consumed_budget h in
      (k', e', rw a (red_of_severity _ (rw was_red at grown)))

  record_all-IsTripped :
      (cfg : BudgetConfig F) (hash : Bytes) (txs : List (Cluster × Runs × ℕ × Transaction F))
      (l : Ledger F)
      → CostsNonneg txs
      → IsTripped cfg (find_key hash l)
      → IsTripped cfg (find_key hash (record_all txs l))
  unfolding record_all
  record_all-IsTripped cfg hash [] l h t = t
  record_all-IsTripped cfg hash ((c, runs, now, tx) ∷ rest) l (h, hs) t =
      record_all-IsTripped cfg hash rest (record_transaction F c runs now tx l).1 hs
        (Grown-IsTripped cfg _ _ (record_transaction-Grown c runs now tx l hash h) t)

  pub key_status-IsTripped :
      (cfg : BudgetConfig F) (o : Option (VirtualKeyRecord F)) (s : BudgetStatus F)
      → key_status cfg o ≡ checked s
      → s.zone ≡ red
      → IsTripped cfg o
  unfolding key_status status_of
  key_status-IsTripped cfg none s e z = absurd (ground arith)
  key_status-IsTripped cfg (some k) s e z = (k, refl, ground arith)

  IsTripped-key_status :
      (cfg : BudgetConfig F) (o : Option (VirtualKeyRecord F))
      → IsTripped cfg o
      → (s : BudgetStatus F) × (key_status cfg o ≡ checked s) × (s.zone ≡ red)
  unfolding key_status status_of
  IsTripped-key_status cfg o (k, e, z) = rw e (_, refl, z)

  -- Once the check of a virtual key reports red, it reports red after any further transactions of
  -- any keys with costs that are not negative, whatever the driver and Redis do with them.
  pub breaker_stays_open :
      (cfg : BudgetConfig F) (run_update : Bool) (hash : Bytes) (l : Ledger F) (g : Guard F)
      (s : BudgetStatus F) (txs : List (Cluster × Runs × ℕ × Transaction F))
      → g.ledger ≡ some l
      → (check_virtual_key_budget F cfg true run_update hash g).0 ≡ checked s
      → s.zone ≡ red
      → CostsNonneg txs
      → (s' : BudgetStatus F) × ((check_virtual_key_budget F cfg true run_update hash
            (record g { ledger = some (record_all txs l) })).0
          ≡ checked s')
        × (s'.zone ≡ red)
  breaker_stays_open cfg run_update hash l g s txs e r z nonneg =
      let t =
        key_status-IsTripped cfg (find_key hash l) s
          (sym (check_virtual_key_budget-status cfg run_update hash l g e) ∙ r) z in
      let (s', e', z') =
        IsTripped-key_status cfg (find_key hash (record_all txs l))
          (record_all-IsTripped cfg hash txs l nonneg t) in
      (s', check_virtual_key_budget-status cfg run_update hash (record_all txs l) _ refl ∙ e', z')

  after_row :
      (c : Cluster) (runs : Runs) (now : ℕ) (tx : Transaction F) (hash : Bytes) (l : Ledger F)
      (k : VirtualKeyRecord F)
      → find_key hash l ≡ some k
      → runs.insert_row ≡ true
      → runs.key_row ≡ true
      → is_set tx.virtual_key_hash ≡ true
      → find_key hash (record_transaction F c runs now tx l).1
        ≡ some (record k {
          consumed_budget =
              (if tx.virtual_key_hash =s hash
                then F.add k.consumed_budget tx.estimated_cost_usd
                else k.consumed_budget);
        })
  unfolding find_key
  after_row c runs now tx hash l k found inserted charged set =
      record_transaction-find_key F c runs now tx l hash
      ∙ ground (
        arith,
        find?-true (λ k. k.key_hash =s hash) l.virtual_keys found,
        =s_iff k.key_hash tx.virtual_key_hash,
        =s_iff k.key_hash hash,
        =s_iff tx.virtual_key_hash hash,
      )

  -- What the guard reports of a virtual key right after a transaction that the ledger has taken: if
  -- the transaction is the key's own, its spend has grown by the cost; if it is another key's, it has not.
  pub check_after_charge :
      (cfg : BudgetConfig F) (c : Cluster) (runs : Runs) (now : ℕ) (tx : Transaction F)
      (run_update : Bool) (hash : Bytes) (l : Ledger F) (g : Guard F) (k : VirtualKeyRecord F)
      → g.ledger ≡ some l
      → find_key hash l ≡ some k
      → runs.insert_row ≡ true
      → runs.key_row ≡ true
      → is_set tx.virtual_key_hash ≡ true
      → let g' = record g { ledger = some (record_transaction F c runs now tx l).1 } in
        (check_virtual_key_budget F cfg true run_update hash g').0
        ≡ checked (
            status_of F cfg k.allocated_budget (
              if tx.virtual_key_hash =s hash
              then F.add k.consumed_budget tx.estimated_cost_usd
              else k.consumed_budget))
  unfolding key_status
  check_after_charge cfg c runs now tx run_update hash l g k e found inserted charged set =
      check_virtual_key_budget-status cfg run_update hash _ _ refl
      ∙ ap (key_status cfg) (after_row c runs now tx hash l k found inserted charged set)
