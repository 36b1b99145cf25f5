-- ===== src/Tests/Retry.antt =====
-- A provider that answers 503 to the first request and 429 from then on, without a pool of keys.
use tkngate.Base.{ℕ, zero, suc, ◌≢◌, ◌≤◌, ◌+◌, refl, false, none, some, [], ◌∷◌}
use tkngate.Base.Int.{pos}
use tkngate.Base.Bytes.{bytes}
use tkngate.Proxy.Json.{JsonCodec}
use tkngate.Proxy.Retry.{Response, Request, no_answer, Network, RetryConfig, execute}
use tkngate.Proxy.Retry.Attempts.{IsCounter, execute_bounds}
use tkngate.Proxy.Retry.Providers.{IsRouted, execute-IsRouted}

abbrev plain : JsonCodec
plain = record {
  unmarshal = λ b. some [];
  leaves_nil = λ b. false;
  marshal = λ m. some (bytes "{}");
}

abbrev answer : ℕ → Response
answer zero = record { status_code = 503; headers = []; body = [] }
answer (suc n) = record { status_code = 429; headers = []; body = [] }

-- The state is the number of requests so far.
abbrev line : Network
line = record {
  World = ℕ;
  has_pool = false;
  p2p_enabled = false;
  next_key = λ p s n w. (none, w);
  offload = λ p m s n b w. (none, w);
  round_trip = λ r w. (some (answer w), suc w);
  count = λ b m. pos 7;
}

abbrev requests : ℕ → ℕ
requests n = n

abbrev cfg : RetryConfig
cfg = record { fallback_provider = []; anthropic_key = none }

abbrev first : Request
first = record {
  provider = bytes "openai";
  host = bytes "api.openai.com";
  path = bytes "/v1/chat/completions";
  headers = (bytes "Authorization", bytes "Bearer sk-openai") ∷ [];
  body = bytes "{}";
  was_failover = false;
}

counted : IsCounter cfg plain line [] [] requests
counted = record { keys = λ p s n w. refl; peers = λ p m s n b w. refl; sends = λ r w. refl }

execute_bounds_example :
    let out = execute cfg plain line [] [] first 0 in
    (requests out.2 ≤ requests 0 + 4) × (out.0 ≢ no_answer)
execute_bounds_example = execute_bounds cfg plain line [] [] requests counted first 0

-- The 503 moves the request to deepseek.
execute-IsRouted_example : IsRouted cfg first (execute cfg plain line [] [] first 0).1
execute-IsRouted_example = execute-IsRouted cfg plain line [] [] first 0
