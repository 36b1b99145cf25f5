-- ===== src/Proxy/Account.antt =====
-- internal/proxy/middleware.go, the end of `RoundTrip` for a response that is no stream: its tokens,
-- its cost, and the record in the ledger. `usage` is what encoding/json finds of the provider's own
-- count. The report to the cloud, the audit record and the metrics are output.
use tkngate.Base.{Bool, not, [], ◌&&◌, Option, none, some, leb, ltb, if◌then◌else◌}
use tkngate.Base.Int.{ℤ, pos, leb_ℤ}
use tkngate.Base.Bytes.{Bytes}
use tkngate.Float64.{Float64}
use tkngate.Budget.Models.{Transaction}
use tkngate.Budget.Ledger.{is_set}
use tkngate.Tokenizer.{Unicode, count, estimate_cost}
use tkngate.Proxy.Retry.{Response, Request}
use tkngate.Proxy.Admission.{Identity}
use tkngate.Proxy.Capture.{Input}

-- `respJSON`
pub record Usage : Type 0 where
  pub model : Bytes
  pub prompt_tokens : ℤ
  pub completion_tokens : ℤ
  pub total_tokens : ℤ

-- The tokens of a request and its response, and the model of the response, which may be empty.
pub record Tokens : Type 0 where
  pub input : ℤ
  pub output : ℤ
  pub real_model : Bytes

unfoldable pub is_success : Response → Bool
is_success res = leb 200 res.status_code && ltb res.status_code 300

unfoldable pub reported : Option Usage → Tokens
reported none = record { input = pos 0; output = pos 0; real_model = [] }
reported (some u) =
    if not (leb_ℤ u.total_tokens (pos 0))
    then record { input = u.prompt_tokens; output = u.completion_tokens; real_model = u.model }
    else record { input = pos 0; output = pos 0; real_model = [] }

unfoldable pub is_zero : ℤ → Bool
is_zero n = leb_ℤ n (pos 0) && leb_ℤ (pos 0) n

module _ (F : Float64) (U : Unicode) (usage : Bytes → Option Usage) where
  -- The provider's own count, else the estimate from the texts.
  unfoldable pub tokens_of : Input → Response → Tokens
  unfolding reported is_zero
  tokens_of i res =
      let t = reported (if is_set res.body && is_success res then usage res.body else none) in
      if is_zero t.input && is_zero t.output
      then record t {
        input = pos (count F U i.body i.model);
        output = pos (count F U res.body i.model);
      }
      else t

  unfoldable pub transaction_of : Identity → Request → Input → Response → Transaction F
  transaction_of id r i res =
      let t = tokens_of i res in
      let model = if is_set t.real_model then t.real_model else i.model in
      record {
        id = 0;
        session_id = id.session_id;
        virtual_key_hash = id.key_hash;
        provider = r.provider;
        model = model;
        input_tokens = t.input;
        output_tokens = t.output;
        estimated_cost_usd = estimate_cost F U r.provider model t.input t.output;
        timestamp = 0;
      }

  -- A stream is charged with its input when it starts.
  unfoldable pub stream_transaction : Identity → Request → Input → Transaction F
  stream_transaction id r i =
      let in_tokens = pos (count F U i.body i.model) in
      record {
        id = 0;
        session_id = id.session_id;
        virtual_key_hash = id.key_hash;
        provider = r.provider;
        model = i.model;
        input_tokens = in_tokens;
        output_tokens = pos 0;
        estimated_cost_usd = estimate_cost F U r.provider i.model in_tokens (pos 0);
        timestamp = 0;
      }
