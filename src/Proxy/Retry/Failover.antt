-- ===== src/Proxy/Retry/Failover.antt =====
-- internal/proxy/middleware.go, `RoundTrip`: the failover of a request to another provider.
use tkngate.Base.{ℕ, Bool, true, false, Option, none, some, [], ◌∷◌, if◌then◌else◌}
use tkngate.Base.Bytes.{Bytes, bytes, ◌=s◌}
use tkngate.Base.Maps.{Map, insert, erase}
use tkngate.Budget.Ledger.{is_set}
use tkngate.Proxy.Json.{JsonCodec}
use tkngate.Proxy.Payload.{replace_model}
use tkngate.Proxy.Streaming.{strip_prefix}

pub record Response : Type 0 where
  pub status_code : ℕ
  pub headers : Map Bytes
  pub body : Bytes

-- What a retry can change of the request. The headers are under their canonical names.
pub record Request : Type 0 where
  pub provider : Bytes
  pub host : Bytes
  pub path : Bytes
  pub headers : Map Bytes
  pub body : Bytes
  pub was_failover : Bool

-- config.Cfg.Budget.FallbackProvider and the API key of config.Cfg.Providers["anthropic"].
pub record RetryConfig : Type 0 where
  pub fallback_provider : Bytes
  pub anthropic_key : Option Bytes

abbrev pub chat_path : Bytes
chat_path = bytes "/chat/completions"

unfoldable pub reversed : Bytes → Bytes → Bytes
reversed [] done = done
reversed (x ∷ b) done = reversed b (x ∷ done)

-- `strings.HasSuffix`
unfoldable pub has_suffix : Bytes → Bytes → Bool
unfolding reversed strip_prefix
has_suffix b suffix = elim (strip_prefix (reversed suffix []) (reversed b [])) [
  | none ↦ false
  | some r ↦ true
]

-- Where a provider answers, and its model for a request that comes from another one.
pub record Destination : Type 0 where
  pub host : Bytes
  pub path : Bytes
  pub model : Bytes

unfoldable pub destination : Bytes → Option Destination
unfolding ◌=s◌
destination provider =
    if provider =s bytes "anthropic"
    then some record {
      host = bytes "api.anthropic.com";
      path = bytes "/v1/messages";
      model = bytes "claude-sonnet-4-20250514";
    }
    else if provider =s bytes "openai"
    then some record {
      host = bytes "api.openai.com";
      path = bytes "/v1/chat/completions";
      model = bytes "gpt-4o";
    }
    else if provider =s bytes "deepseek"
    then some record {
      host = bytes "api.deepseek.com";
      path = bytes "/v1/chat/completions";
      model = bytes "deepseek-chat";
    }
    else if provider =s bytes "kimi"
    then some record {
      host = bytes "api.moonshot.cn";
      path = bytes "/v1/chat/completions";
      model = bytes "moonshot-v1-8k";
    }
    else if provider =s bytes "groq"
    then some record {
      host = bytes "api.groq.com";
      path = bytes "/openai/v1/chat/completions";
      model = bytes "llama3-8b-8192";
    }
    else none

module _ (cfg : RetryConfig) where
  unfoldable pub fallback : Bytes
  fallback = if is_set cfg.fallback_provider then cfg.fallback_provider else bytes "deepseek"

  unfoldable pub anthropic_headers : Map Bytes → Map Bytes
  anthropic_headers headers =
      let bare = erase (bytes "Authorization") headers in
      elim cfg.anthropic_key [
        | none ↦ bare
        | some key ↦
            insert (bytes "Anthropic-Version") (bytes "2023-06-01")
              (insert (bytes "X-Api-Key") key bare)
      ]

  module _ (K : JsonCodec) where
    -- `switch provider`; `none` is the panic of `replaceModel`.
    unfoldable pub failover : Bytes → Request → Option Request
    unfolding anthropic_headers
    failover provider r = elim (destination provider) [
      | none ↦ some (record r { provider = provider; was_failover = true })
      | some d ↦ elim (replace_model K r.body d.model) [
        | none ↦ none
        | some b ↦ some record {
          provider = provider;
          host = d.host;
          path = d.path;
          headers =
              (if provider =s bytes "anthropic" then anthropic_headers r.headers else r.headers);
          body = b;
          was_failover = true;
        }
      ]
    ]
