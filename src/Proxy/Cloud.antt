-- ===== src/Proxy/Cloud.antt =====
-- internal/cloud/client.go: the client of the control plane, which validates the keys of the proxy in
-- cloud mode and takes its usage reports. net/url, encoding/json and the request over HTTP are
-- parameters. A header has one value.
use tkngate.Base.{
  ℕ, ◌≡◌, refl, Bool, true, false, not, Option, none, some, [], ◌∷◌, ◌++◌, ◌==◌, if◌then◌else◌,
  Bool-cases, inl, inr,
}
use tkngate.Base.Int.{ℤ}
use tkngate.Base.Bytes.{Bytes, bytes, ◌=s◌}
use tkngate.Base.Maps.{Map}
use tkngate.Float64.{Float64}
use tkngate.Budget.Ledger.{is_set}
use tkngate.Proxy.Director.{trim_slash}
use tkngate.Budget.Guard.{BudgetConfig, Guard}
use tkngate.Limiter.{Rate}
use tkngate.Proxy.Admission.{
  CloudKey, Verifier, Queries, blocked, invalid_key, admit_key, cloud_admission,
}

-- url.URL; `authority` is all between the scheme and the path.
pub record Url : Type 0 where
  pub scheme : Bytes
  pub authority : Bytes
  pub path : Bytes
  pub raw_query : Bytes
  pub fragment : Bytes

pub record CloudRequest : Type 0 where
  pub method : Bytes
  pub url : Bytes
  pub headers : Map Bytes
  pub body : Bytes

-- The status of an answer, and its body if it could be read.
pub record CloudResponse : Type 0 where
  pub status : ℕ
  pub body : Option Bytes

pub record UsageReport (F : Float64) : Type 0 where
  pub key_id : Bytes
  pub provider : Bytes
  pub model : Bytes
  pub prompt_tokens : ℤ
  pub completion_tokens : ℤ
  pub cost_usd : F.Float
  pub latency_ms : ℤ
  pub ttft_ms : ℤ
  pub flagged_pii : Bool
  pub was_failover : Bool
  pub status_code : ℤ

pub record CloudConfig : Type 0 where
  pub enabled : Bool
  pub api_url : Bytes
  pub secret : Bytes

pub record CloudNetwork (F : Float64) : Type 0 where
  pub parse : Bytes → Option Url
  pub print : Url → Bytes
  pub to_lower : Bytes → Bytes
  -- `u.Query()`, then `Set` of a name and a value, then `Encode`
  pub set_query : Bytes → Bytes → Bytes → Bytes
  -- The request as it is built and sent; `none` if either fails.
  pub send : CloudRequest → Option CloudResponse
  pub decode : Bytes → Option CloudKey
  pub marshal : UsageReport F → Option Bytes

module _ (F : Float64) (N : CloudNetwork F) where
  unfoldable pub allowed_cloud_scheme : Url → Bool
  allowed_cloud_scheme u = N.to_lower u.scheme =s bytes "https"

  unfoldable pub sanitized : Bytes → Option Url → Option Bytes
  unfolding allowed_cloud_scheme
  sanitized path none = none
  sanitized path (some u) =
      if not (allowed_cloud_scheme u)
      then none
      else some (
          N.print record {
            scheme = u.scheme;
            authority = u.authority;
            path = trim_slash u.path ++ path;
            raw_query = [];
            fragment = [];
          })

  unfoldable pub sanitize_cloud_url : Bytes → Bytes → Option Bytes
  unfolding sanitized
  sanitize_cloud_url raw_url path =
      if not (is_set raw_url) then none else sanitized path (N.parse raw_url)

  unfoldable pub secret_header : CloudConfig → Map Bytes
  secret_header c = (bytes "X-Tkngate-Internal-Secret", c.secret) ∷ []

  -- The body is read and decoded whatever the status, but for 404.
  unfoldable pub read_body : Option Bytes → Option CloudKey
  read_body none = none
  read_body (some b) = N.decode b

  unfoldable pub validated : Option CloudResponse → Option CloudKey
  unfolding read_body
  validated none = none
  validated (some r) = if r.status == 404 then none else read_body r.body

  unfoldable pub validation_request : CloudConfig → Bytes → Url → CloudRequest
  unfolding secret_header
  validation_request c raw_key u = record {
    method = bytes "GET";
    url = N.print (record u { raw_query = N.set_query u.raw_query (bytes "key") raw_key });
    headers = secret_header c;
    body = [];
  }

  unfoldable pub query_key : CloudConfig → Bytes → Option Url → Option CloudKey
  unfolding validated validation_request
  query_key c raw_key none = none
  query_key c raw_key (some u) = validated (N.send (validation_request c raw_key u))

  unfoldable pub parsed_again : Option Bytes → Option Url
  parsed_again none = none
  parsed_again (some b) = N.parse b

  -- ValidateKey; `none` is an error.
  unfoldable pub validate_key : CloudConfig → Bytes → Option CloudKey
  unfolding query_key sanitize_cloud_url parsed_again
  validate_key c raw_key =
      if not c.enabled
      then none
      else query_key c raw_key (parsed_again (sanitize_cloud_url c.api_url (bytes "/validate")))

  unfoldable pub usage_request : CloudConfig → Option Bytes → Option Bytes → Option CloudRequest
  unfolding secret_header
  usage_request c none url = none
  usage_request c (some payload) none = none
  usage_request c (some payload) (some url) = some record {
    method = bytes "POST";
    url = url;
    headers = (bytes "Content-Type", bytes "application/json") ∷ secret_header c;
    body = payload;
  }

  -- The request that ReportUsage sends, if any; the answer is only logged.
  unfoldable pub report_usage : CloudConfig → UsageReport F → Option CloudRequest
  unfolding usage_request sanitize_cloud_url
  report_usage c report =
      if not c.enabled
      then none
      else usage_request c (N.marshal report) (sanitize_cloud_url c.api_url (bytes "/usage"))

  -- The cloud as the middleware asks it.
  unfoldable pub cloud_verifier : CloudConfig → (Bytes → Bytes) → (Bytes → Bytes → Bool) → Verifier
  unfolding validate_key
  cloud_verifier c sha_hex compare_hash = record {
    cloud_enabled = c.enabled;
    validate_key = validate_key c;
    sha_hex = sha_hex;
    compare_hash = compare_hash;
  }

  -- A URL without https is not used.
  sanitize_cloud_url-plain :
      (raw path : Bytes)
      → (u : Url) → N.parse raw ≡ some u
      → allowed_cloud_scheme u ≡ false
      → sanitize_cloud_url raw path ≡ none
  unfolding sanitize_cloud_url sanitized
  sanitize_cloud_url-plain raw path u parses plain = elim (Bool-cases (is_set raw)) [
    | inl set ↦ rw (set, parses, plain) refl
    | inr empty ↦ rw empty refl
  ]

  -- In cloud mode over a URL without https, no virtual key is admitted, whatever the answer of the
  -- network would be.
  pub cloud_verifier-refuses :
      (R : Rate F)
      → (cfg : BudgetConfig F) → (q : Queries) → (c : CloudConfig) → (sha_hex : Bytes → Bytes)
      → (compare_hash : Bytes → Bytes → Bool) → (u : Url) → c.enabled ≡ true
      → N.parse c.api_url ≡ some u
      → allowed_cloud_scheme u ≡ false
      → (key provider : Bytes) → (g : Guard F)
      → admit_key F R (cloud_verifier c sha_hex compare_hash) cfg q key provider g
        ≡ (blocked invalid_key, g)
  unfolding admit_key cloud_verifier validate_key query_key parsed_again cloud_admission
  cloud_verifier-refuses R cfg q c sha_hex compare_hash u on parses plain key provider g =
      rw (on, sanitize_cloud_url-plain c.api_url (bytes "/validate") u parses plain) refl
