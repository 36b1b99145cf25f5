-- ===== src/Budget/Models.antt =====
-- internal/budget/models.go and the row types of internal/budget/ledger.go.
use tkngate.Base.{ℕ, List}
use tkngate.Base.Int.{ℤ}
use tkngate.Base.Bytes.{Bytes}
use tkngate.Base.Maps.{Map}
use tkngate.Float64.{Float64}

-- The traffic light.
pub data BudgetZone : Type 0 where
  green amber red : BudgetZone

-- One API request/response cycle. A time is a number of seconds.
pub record Transaction (F : Float64) : Type 0 where
  pub id : ℕ
  pub session_id : Bytes
  pub virtual_key_hash : Bytes
  pub provider : Bytes
  pub model : Bytes
  pub input_tokens : ℤ
  pub output_tokens : ℤ
  pub estimated_cost_usd : F.Float
  pub timestamp : ℕ

pub record BudgetStatus (F : Float64) : Type 0 where
  pub total_spent_usd : F.Float
  pub limit_usd : F.Float
  pub remaining_usd : F.Float
  pub zone : BudgetZone

pub record PoolNode : Type 0 where
  pub node_id : Bytes
  pub provider_type : Bytes
  pub blinded_key_hash : Bytes
  pub measured_tpm_limit : ℤ
  pub remaining_tokens_quota : ℤ

pub record SessionState (F : Float64) : Type 0 where
  pub session_id : Bytes
  pub allocated_budget : F.Float
  pub consumed_budget : F.Float
  pub current_state : BudgetZone
  pub created_at : ℕ

pub record VirtualKeyRecord (F : Float64) : Type 0 where
  pub id : ℕ
  pub key_hash : Bytes
  pub name : Bytes
  pub allocated_budget : F.Float
  pub consumed_budget : F.Float
  pub org_id : ℤ
  pub allowed_providers : Bytes
  pub current_state : BudgetZone
  pub created_at : ℕ

pub record OrganizationRecord (F : Float64) : Type 0 where
  pub id : ℕ
  pub name : Bytes
  pub budget_limit_usd : F.Float
  pub consumed_usd : F.Float
  pub created_at : ℕ

-- `Ledger`: the five tables of budget.db, each with the counter of its AUTOINCREMENT column, and
-- the sums that the nodes of a cluster share in Redis.
pub record Ledger (F : Float64) : Type 0 where
  pub transactions : List (Transaction F)
  pub sessions : List (SessionState F)
  pub pool_nodes : List PoolNode
  pub organizations : List (OrganizationRecord F)
  pub virtual_keys : List (VirtualKeyRecord F)
  pub next_transaction : ℕ
  pub next_organization : ℕ
  pub next_key : ℕ
  pub redis : Map F.Float
