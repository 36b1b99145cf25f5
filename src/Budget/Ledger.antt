-- ===== src/Budget/Ledger.antt =====
-- The methods of `Ledger` in internal/budget/ledger.go: transactions, spend and sessions. The
-- pool nodes, organizations and virtual keys are in the child Accounts. A method that writes returns what it
-- reports and the ledger afterwards; `run` says of each statement whether the driver executes it.
-- A method holds the ledger's lock throughout, so it is one step.
pub mod Accounts
pub mod Reports
pub mod Spend
pub mod Charges
pub mod WellFormed
use tkngate.Base.{
  ℕ, suc, ◌+◌, Bool, true, false, not, ◌&&◌, Option, none, some, List, [], ◌∷◌, ◌++◌, map, any,
  filter, length, ltb, ◌==◌, if◌then◌else◌,
}
use tkngate.Base.Int.{ℤ, pos, ◌-ℤ◌, ltb_ℤ}
use tkngate.Base.Bytes.{Bytes, bytes, ◌=s◌}
use tkngate.Base.Maps.{Map, lookup, insert}
use tkngate.Float64.{Float64, whole}
use tkngate.Sql.{DbError, failed, unique_violation, no_rows, Result, ok, err, update, delete}
use tkngate.Budget.Models.{
  BudgetZone, green, Transaction, PoolNode, SessionState, VirtualKeyRecord, OrganizationRecord,
  Ledger,
}

-- `config.Cfg.Cluster.Enabled && cluster.RedisClient != nil`, and whether Redis answers.
pub record Cluster : Type 0 where
  pub enabled : Bool
  pub reachable : Bool

-- For each statement of `RecordTransaction`, whether the driver executes it.
pub record Runs : Type 0 where
  pub insert_row : Bool
  pub session_row : Bool
  pub key_row : Bool
  pub organization_row : Bool

abbrev pub global_key : Bytes
global_key = bytes "tkngate:budget:global_spend"

abbrev pub session_key : Bytes → Bytes
session_key id = bytes "tkngate:budget:session:" ++ id

abbrev pub vkey_key : Bytes → Bytes
vkey_key hash = bytes "tkngate:budget:vkey:" ++ hash

-- `id != ""`
unfoldable pub is_set : Bytes → Bool
is_set [] = false
is_set (c ∷ cs) = true

module _ (F : Float64) where
  -- An empty database, as `InitLedger` creates it.
  abbrev pub init_ledger : Ledger F
  init_ledger = record {
    transactions = [];
    sessions = [];
    pool_nodes = [];
    organizations = [];
    virtual_keys = [];
    next_transaction = 1;
    next_organization = 1;
    next_key = 1;
    redis = [];
  }

  -- A write to the ledger and its error.
  abbrev pub Write : Type 0
  Write = Result (Unit {0}) × Ledger F

  -- One statement: it is executed, or the driver reports a failure.
  abbrev pub exec : Bool → (Ledger F → Ledger F) → Ledger F → Write
  exec run f l = if run then (ok tt, f l) else (err failed, l)

  -- `COALESCE(SUM(...), 0.0)` over the amounts of the rows
  unfoldable pub sum : List F.Float → F.Float
  sum [] = whole F 0
  sum (x ∷ xs) = F.sum (x ∷ xs)

  -- INCRBYFLOAT; a key that is not there counts as 0. The source does not look at its error.
  incr_by_float : Bool → Bytes → F.Float → Map F.Float → Map F.Float
  incr_by_float reachable k x m =
      if reachable
      then elim (lookup k m) [
        | none ↦ insert k (F.add (whole F 0) x) m
        | some v ↦ insert k (F.add v x) m
      ]
      else m

  share_spend : Cluster → Transaction F → Ledger F → Ledger F
  unfolding incr_by_float
  share_spend c tx l =
      let cost = tx.estimated_cost_usd in
      let m : Map F.Float = incr_by_float c.reachable global_key cost l.redis in
      let m1 : Map F.Float =
        if is_set tx.session_id
        then incr_by_float c.reachable (session_key tx.session_id) cost m
        else m in
      let m2 : Map F.Float =
        if is_set tx.virtual_key_hash
        then incr_by_float c.reachable (vkey_key tx.virtual_key_hash) cost m1
        else m1 in
      if c.enabled then record l { redis = m2 } else l

  insert_transaction : ℕ → Transaction F → Ledger F → Ledger F
  insert_transaction now tx l = record l {
    transactions = l.transactions ++ record tx { id = l.next_transaction; timestamp = now } ∷ [];
    next_transaction = suc l.next_transaction;
  }

  charge_session_row : F.Float → SessionState F → SessionState F
  charge_session_row cost s = record s { consumed_budget = F.add s.consumed_budget cost }

  charge_key_row : F.Float → VirtualKeyRecord F → VirtualKeyRecord F
  charge_key_row cost k = record k { consumed_budget = F.add k.consumed_budget cost }

  charge_organization_row : F.Float → OrganizationRecord F → OrganizationRecord F
  charge_organization_row cost o = record o { consumed_usd = F.add o.consumed_usd cost }

  charge_session : Bytes → F.Float → Ledger F → Ledger F
  unfolding charge_session_row
  charge_session id cost l = record l {
    sessions = update (λ s. s.session_id =s id) (charge_session_row cost) l.sessions;
  }

  pub charge_key : Bytes → F.Float → Ledger F → Ledger F
  unfolding charge_key_row
  charge_key hash cost l = record l {
    virtual_keys = update (λ k. k.key_hash =s hash) (charge_key_row cost) l.virtual_keys;
  }

  -- SELECT org_id FROM tkngate_virtual_keys WHERE key_hash = ?
  pub org_of_key : Bytes → List (VirtualKeyRecord F) → Option ℤ
  org_of_key hash [] = none
  org_of_key hash (k ∷ ks) = if k.key_hash =s hash then some k.org_id else org_of_key hash ks

  -- An id that is compared with NULL matches no row.
  has_id : Option ℤ → OrganizationRecord F → Bool
  has_id none o = false
  has_id (some (pos n)) o = o.id == n
  has_id (some other) o = false

  charge_organization : Bytes → F.Float → Ledger F → Ledger F
  unfolding charge_organization_row org_of_key has_id
  charge_organization hash cost l = record l {
    organizations =
        update (has_id (org_of_key hash l.virtual_keys)) (charge_organization_row cost)
          l.organizations;
  }

  -- The two updates for a virtual key: the error of the second one is what is left in `err`.
  charge_key_and_organization : Runs → Transaction F → Ledger F → Write
  unfolding charge_key charge_organization
  charge_key_and_organization runs tx l =
      exec runs.organization_row (charge_organization tx.virtual_key_hash tx.estimated_cost_usd)
        (exec runs.key_row (charge_key tx.virtual_key_hash tx.estimated_cost_usd) l).1

  -- What follows a successful INSERT.
  charge_rows : Runs → Transaction F → Ledger F → Write
  unfolding charge_session charge_key_and_organization
  charge_rows runs tx l =
      let w : Write =
        if is_set tx.session_id
        then exec runs.session_row (charge_session tx.session_id tx.estimated_cost_usd) l
        else (ok tt, l) in
      if is_set tx.virtual_key_hash then charge_key_and_organization runs tx w.1 else w

  unfoldable pub record_transaction : Cluster → Runs → ℕ → Transaction F → Ledger F → Write
  unfolding share_spend insert_transaction charge_rows
  record_transaction c runs now tx l =
      let shared = share_spend c tx l in
      if runs.insert_row
      then charge_rows runs tx (insert_transaction now tx shared)
      else (err failed, shared)

  unfoldable pub costs : List (Transaction F) → List F.Float
  costs = map λ tx. tx.estimated_cost_usd

  -- `GetTotalSpend`: the shared sum where a cluster has one, else the sum of the table.
  from_redis : Cluster → Bytes → Ledger F → Option F.Float
  from_redis c k l = if c.enabled && c.reachable then lookup k l.redis else none

  or_table : Bool → Option F.Float → F.Float → Result F.Float
  or_table run (some v) total = ok v
  or_table run none total = if run then ok total else err failed

  unfoldable pub get_total_spend : Cluster → Bool → Ledger F → Result F.Float
  unfolding from_redis or_table costs sum
  get_total_spend c run l = or_table run (from_redis c global_key l) (sum (costs l.transactions))

  unfoldable pub get_session_spend : Cluster → Bool → Bytes → Ledger F → Result F.Float
  unfolding from_redis or_table costs sum
  get_session_spend c run id l =
      or_table run (from_redis c (session_key id) l)
        (sum (costs (filter (λ tx. tx.session_id =s id) l.transactions)))

  -- `Reset`: the sessions go only if the transactions went, and their own failure is not reported.
  pub reset : Bool → Bool → Ledger F → Write
  reset run run_sessions l =
      if run
      then (
        ok tt,
        record l { transactions = []; sessions = (if run_sessions then [] else l.sessions) },
      )
      else (err failed, l)

  -- INSERT OR IGNORE INTO tkngate_sessions
  unfoldable pub ensure_session : Bool → ℕ → Bytes → F.Float → Ledger F → Write
  ensure_session run now id allocated l =
      exec run
        (λ l. if any (λ s. s.session_id =s id) l.sessions then l else record l {
          sessions =
              l.sessions
              ++ record {
                session_id = id;
                allocated_budget = allocated;
                consumed_budget = whole F 0;
                current_state = green;
                created_at = now;
              }
                ∷ [];
        })
        l

  unfoldable pub get_sessions : Bool → Ledger F → Result (List (SessionState F))
  get_sessions run l = if run then ok l.sessions else err failed

  unfoldable pub get_transaction_count : Bool → Ledger F → Result ℕ
  get_transaction_count run l = if run then ok (length l.transactions) else err failed

  unfoldable pub charge_virtual_key : Bool → Bytes → F.Float → Ledger F → Write
  unfolding charge_key
  charge_virtual_key run hash amount l = exec run (charge_key hash amount) l
