-- ===== src/Proxy/Streaming/Budgets.antt =====
-- The accounting of a stream by the guard and the ledger, without the cloud. The record of a stream
-- needs a ledger; its error is only logged.
use mathlib.Core.Option
use tkngate.Base.{ℕ, Bool, false}
use tkngate.Base.Int.{pos}
use tkngate.Base.Bytes.{Bytes}
use tkngate.Float64.{Float64}
use tkngate.Budget.Models.{red, BudgetStatus, Ledger}
use tkngate.Budget.Ledger.{Cluster, Runs, record_transaction}
use tkngate.Budget.Guard.{
  BudgetConfig, Check, checked, refused, Guard, same_zone, check_session_budget,
  check_virtual_key_budget,
}
use tkngate.Proxy.Streaming.{Accounting}

-- `err == nil && status.Zone == budget.ZoneRed`
unfoldable pub is_red : {F : Float64} → Check (BudgetStatus F) → Bool
unfolding same_zone
is_red (checked s) = same_zone s.zone red
is_red (refused e) = false

-- What stays the same during a stream; `runs` and the flags say which statements the driver executes.
pub record StreamInfo (F : Float64) : Type 0 where
  pub config : BudgetConfig F
  pub cluster : Cluster
  pub runs : Runs
  pub run_select : Bool
  pub run_update : Bool
  pub now : ℕ
  pub session_id : Bytes
  pub virtual_key_hash : Bytes
  pub provider : Bytes
  pub model : Bytes
  pub cost_of : ℕ → F.Float

module _ (F : Float64) (i : StreamInfo F) where
  unfoldable pub record_stream : ℕ → Ledger F → Ledger F
  record_stream tokens l =
      (record_transaction F i.cluster i.runs i.now
        (record {
          id = 0;
          session_id = i.session_id;
          virtual_key_hash = i.virtual_key_hash;
          provider = i.provider;
          model = i.model;
          input_tokens = pos 0;
          output_tokens = pos tokens;
          estimated_cost_usd = i.cost_of tokens;
          timestamp = i.now;
        })
        l).1

  abbrev pub guard_accounting : Accounting
  guard_accounting = record {
    World = Guard F;
    key_is_red = λ g.
        let out =
          check_virtual_key_budget F i.config i.run_select i.run_update i.virtual_key_hash g in
        (is_red out.0, out.1);
    session_is_red = λ g.
        let out =
          check_session_budget F i.config i.cluster i.run_update i.run_select i.now i.session_id
            g in
        (is_red out.0, out.1);
    record_tokens = λ tokens g. record g { ledger = Option.map (record_stream tokens) g.ledger };
  }
