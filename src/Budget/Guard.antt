-- ===== src/Budget/Guard.antt =====
-- internal/budget/guard.go: the traffic light over the global, session and virtual-key spend.
-- `Guard` is the package's state: `GlobalLedger` (nil before `InitLedger`), `lastGlobalZone`, and
-- the alerts handed to internal/alerting, newest last. Logging is left out.
pub mod Zones
pub mod Breaker
pub mod Alerts
use tkngate.Base.{
  ℕ, suc, Bool, true, false, not, ◌&&◌, Option, none, some, List, [], ◌∷◌, ◌++◌, find?,
  if◌then◌else◌,
}
use tkngate.Base.Int.{ℤ, pos, negsuc}
use tkngate.Base.Bytes.{Bytes, bytes, ◌=s◌}
use tkngate.Float64.{Float64, whole, same}
use tkngate.Sql.{DbError, Result, ok, err}
use tkngate.Budget.Models.{BudgetZone, green, amber, red, BudgetStatus, VirtualKeyRecord, Ledger}
use tkngate.Budget.Ledger.{Cluster, Write, get_total_spend, get_session_spend, ensure_session}
use tkngate.Budget.Ledger.Accounts.{get_virtual_keys, update_virtual_key_zone}

-- `config.Cfg.Budget`, the part that the guard reads.
pub record BudgetConfig (F : Float64) : Type 0 where
  pub global_limit_usd : F.Float
  pub max_session_cost_usd : F.Float
  pub amber_threshold_pct : ℤ
  pub red_threshold_pct : ℤ

-- The arguments of `alerting.DispatchAlert`.
pub record Alert (F : Float64) : Type 0 where
  pub scope : Bytes
  pub name : Bytes
  pub zone : BudgetZone
  pub spent : F.Float
  pub limit : F.Float

pub record Guard (F : Float64) : Type 0 where
  pub ledger : Option (Ledger F)
  pub last_global_zone : BudgetZone
  pub alerts : List (Alert F)

pub data CheckError : Type 0 where
  not_initialized key_not_found : CheckError
  database : DbError → CheckError

pub data Check {ℓ} (A : Type ℓ) : Type ℓ where
  checked : A → Check A
  refused : CheckError → Check A

-- `a == b` on zones.
unfoldable pub same_zone : BudgetZone → BudgetZone → Bool
same_zone green green = true
same_zone amber amber = true
same_zone red red = true
same_zone _ _ = false

module _ (F : Float64) where
  -- float64(n)
  unfoldable pub of_int : ℤ → F.Float
  of_int (pos n) = whole F n
  of_int (negsuc n) = F.sub (whole F 0) (whole F (suc n))

  -- limit * (float64(pct) / 100.0)
  unfoldable pub threshold : F.Float → ℤ → F.Float
  unfolding of_int
  threshold limit pct = F.mul limit (F.div (of_int pct) (whole F 100))

  unfoldable pub zone_of : BudgetConfig F → F.Float → F.Float → BudgetZone
  zone_of cfg limit spent =
      if F.le (threshold limit cfg.red_threshold_pct) spent
      then red
      else if F.le (threshold limit cfg.amber_threshold_pct) spent
      then amber
      else green

  unfoldable pub status_of : BudgetConfig F → F.Float → F.Float → BudgetStatus F
  status_of cfg limit spent = record {
    total_spent_usd = spent;
    limit_usd = limit;
    remaining_usd = F.sub limit spent;
    zone = zone_of cfg limit spent;
  }

  -- A limit of 0 stands for the default.
  unfoldable pub or_default : F.Float → F.Float → F.Float
  or_default limit d = if same F limit (whole F 0) then d else limit

  abbrev pub Checks : Type 0
  Checks = Check (BudgetStatus F) × Guard F

  -- An alert goes out when the zone changes to amber or red.
  unfoldable pub note_global : BudgetStatus F → Guard F → Guard F
  note_global s g =
      if not (same_zone s.zone g.last_global_zone) && not (same_zone s.zone green)
      then record g {
        last_global_zone = s.zone;
        alerts =
            g.alerts
            ++ record {
              scope = bytes "Global";
              name = bytes "Global Budget";
              zone = s.zone;
              spent = s.total_spent_usd;
              limit = s.limit_usd;
            }
              ∷ [];
      }
      else g

  unfoldable pub global_limit : BudgetConfig F → F.Float
  unfolding or_default
  global_limit cfg = or_default cfg.global_limit_usd (whole F 999999)

  unfoldable pub check_total : BudgetConfig F → Result F.Float → Guard F → Checks
  unfolding note_global global_limit
  check_total cfg (err e) g = (refused (database e), g)
  check_total cfg (ok spent) g =
      let s = status_of cfg (global_limit cfg) spent in (checked s, note_global s g)

  unfoldable pub check_ledger :
      BudgetConfig F → Cluster → Bool → Option (Ledger F) → Guard F → Checks
  unfolding check_total
  check_ledger cfg c run none g = (refused not_initialized, g)
  check_ledger cfg c run (some l) g = check_total cfg (get_total_spend F c run l) g

  unfoldable pub check_budget : BudgetConfig F → Cluster → Bool → Guard F → Checks
  unfolding check_ledger
  check_budget cfg c run g = check_ledger cfg c run g.ledger g

  pub session_limit : BudgetConfig F → F.Float
  unfolding or_default
  session_limit cfg = or_default cfg.max_session_cost_usd (whole F 5)

  session_spend : BudgetConfig F → Result F.Float → Check (BudgetStatus F)
  session_spend cfg (err e) = refused (database e)
  session_spend cfg (ok spent) = checked (status_of cfg (session_limit cfg) spent)

  ensured : BudgetConfig F → Cluster → Bool → Bytes → Write F → Guard F → Checks
  unfolding session_spend
  ensured cfg c run id (err e, l) g = (refused (database e), record g { ledger = some l })
  ensured cfg c run id (ok done, l) g =
      (session_spend cfg (get_session_spend F c run id l), record g { ledger = some l })

  check_session :
      BudgetConfig F → Cluster → Bool → Bool → ℕ → Bytes → Option (Ledger F) → Guard F → Checks
  unfolding ensured
  check_session cfg c run_ensure run now id none g = (refused not_initialized, g)
  check_session cfg c run_ensure run now id (some l) g =
      ensured cfg c run id (ensure_session F run_ensure now id (session_limit cfg) l) g

  -- `CheckSessionBudget`: the first check of a session creates its row.
  pub check_session_budget : BudgetConfig F → Cluster → Bool → Bool → ℕ → Bytes → Guard F → Checks
  unfolding check_session
  check_session_budget cfg c run_ensure run now id g =
      check_session cfg c run_ensure run now id g.ledger g

  unfoldable pub note_key :
      Bool → Bytes → VirtualKeyRecord F → BudgetStatus F → Ledger F → Guard F → Guard F
  note_key run hash k s l g =
      if not (same_zone s.zone k.current_state) && not (same_zone s.zone green)
      then record g {
        ledger = some (update_virtual_key_zone F run hash s.zone l).1;
        alerts =
            g.alerts
            ++ record {
              scope = bytes "VirtualKey";
              name = k.name;
              zone = s.zone;
              spent = s.total_spent_usd;
              limit = s.limit_usd;
            }
              ∷ [];
      }
      else g

  unfoldable pub check_found :
      BudgetConfig F → Bool → Bytes → Option (VirtualKeyRecord F) → Ledger F → Guard F → Checks
  unfolding note_key
  check_found cfg run hash none l g = (refused key_not_found, g)
  check_found cfg run hash (some k) l g =
      let s = status_of cfg k.allocated_budget k.consumed_budget in
      (checked s, note_key run hash k s l g)

  unfoldable pub check_keys :
      BudgetConfig F
      → Bool
      → Bytes
      → Result (List (VirtualKeyRecord F))
      → Ledger F
      → Guard F
      → Checks
  unfolding check_found
  check_keys cfg run hash (err e) l g = (refused (database e), g)
  check_keys cfg run hash (ok ks) l g =
      check_found cfg run hash (find? (λ k. k.key_hash =s hash) ks) l g

  unfoldable pub check_key :
      BudgetConfig F → Bool → Bool → Bytes → Option (Ledger F) → Guard F → Checks
  unfolding check_keys
  check_key cfg run run_update hash none g = (refused not_initialized, g)
  check_key cfg run run_update hash (some l) g =
      check_keys cfg run_update hash (get_virtual_keys F run l) l g

  -- `CheckVirtualKeyBudget`: the zone that was last announced is kept in the key's row.
  unfoldable pub check_virtual_key_budget : BudgetConfig F → Bool → Bool → Bytes → Guard F → Checks
  unfolding check_key
  check_virtual_key_budget cfg run run_update hash g = check_key cfg run run_update hash g.ledger g
