-- ===== src/Proxy/Director.antt =====
-- internal/proxy/director.go: the provider of a request by the first part of its path, the backend it
-- is sent to, and the credentials it is given. A header has one value; the names are canonical.
pub mod Provider
use tkngate.Base.{
  ℕ, Bool, true, false, Option, none, some, List, [], ◌∷◌, ◌++◌, ◌==◌, if◌then◌else◌,
}
use tkngate.Base.Bytes.{Bytes, bytes, ◌=s◌}
use tkngate.Base.Maps.{Map, lookup, insert}
use tkngate.Base.Text.{contains}
use tkngate.Budget.Ledger.{is_set}
use tkngate.Proxy.Streaming.{strip_prefix}

-- config.ProviderConfig, the part that is read.
pub record ProviderConfig : Type 0 where
  pub base_url : Bytes
  pub api_key : Bytes

pub record Request : Type 0 where
  pub scheme : Bytes
  pub url_host : Bytes
  pub host : Bytes
  pub path : Bytes
  pub headers : Map Bytes

unfoldable pub get_default_base_url : Bytes → Bytes
get_default_base_url provider =
    if provider =s bytes "openai"
    then bytes "https://api.openai.com"
    else if provider =s bytes "anthropic"
    then bytes "https://api.anthropic.com"
    else if provider =s bytes "deepseek"
    then bytes "https://api.deepseek.com"
    else if provider =s bytes "mistral"
    then bytes "https://api.mistral.ai"
    else if provider =s bytes "kimi"
    then bytes "https://api.moonshot.cn"
    else if provider =s bytes "groq"
    then bytes "https://api.groq.com/openai"
    else if provider =s bytes "ollama"
    then bytes "http://127.0.0.1:11434"
    else if provider =s bytes "gemini"
    then bytes "https://generativelanguage.googleapis.com"
    else bytes "https://api.openai.com"

-- `strings.TrimPrefix`
unfoldable pub trim_prefix : Bytes → Bytes → Bytes
trim_prefix p b = elim (strip_prefix p b) [ none ↦ b | some r ↦ r ]

-- `strings.TrimSuffix(b, "/")`
unfoldable pub trim_slash : Bytes → Bytes
trim_slash [] = []
trim_slash (c ∷ []) = if c == 47 then [] else c ∷ []
trim_slash (c ∷ d ∷ b) = c ∷ trim_slash (d ∷ b)

-- `strings.SplitN(b, "/", 2)`
unfoldable pub split_slash : Bytes → Bytes × Option Bytes
split_slash [] = ([], none)
split_slash (c ∷ b) =
    let rest = split_slash b in if c == 47 then ([], some b) else (c ∷ rest.0, rest.1)

after_slash : Option Bytes → Bytes
after_slash none = bytes "/"
after_slash (some p) = bytes "/" ++ p

-- The provider, its configuration and the path that is forwarded.
pub record Target : Type 0 where
  pub provider : Bytes
  pub config : ProviderConfig
  pub new_path : Bytes

abbrev empty_config : ProviderConfig
empty_config = record { base_url = []; api_key = [] }

configured : Map ProviderConfig → Bytes → ProviderConfig
configured providers name = elim (lookup name providers) [ none ↦ empty_config | some c ↦ c ]

unfoldable pub target : Map ProviderConfig → Bytes → Target
unfolding configured after_slash
target providers clean_path = elim (lookup (split_slash clean_path).0 providers) [
  | none ↦ record {
    provider = bytes "openai";
    config = configured providers (bytes "openai");
    new_path = bytes "/" ++ clean_path;
  }
  | some c ↦ record {
    provider = (split_slash clean_path).0;
    config = c;
    new_path = after_slash (split_slash clean_path).1;
  }
]

unfoldable pub base_url_of : Target → Bytes
unfolding trim_slash get_default_base_url
base_url_of t =
    let url = trim_slash t.config.base_url in
    if is_set url then url else get_default_base_url t.provider

-- The scheme of a base URL, and what follows it.
unfoldable pub split_scheme : Bytes → Bytes × Bytes
unfolding trim_prefix
split_scheme url = elim (strip_prefix (bytes "http://") url) [
  | some rest ↦ (bytes "http", rest)
  | none ↦ (bytes "https", trim_prefix (bytes "https://") url)
]

joined_path : Option Bytes → Bytes → Bytes
joined_path none new_path = new_path
joined_path (some p) new_path = bytes "/" ++ (p ++ new_path)

keep_auth : Option Bytes → Map Bytes → Map Bytes
keep_auth none headers = headers
keep_auth (some original) headers =
    if is_set original then insert (bytes "X-Tkngate-Original-Auth") original headers else headers

bearer : Bytes → Map Bytes → Map Bytes
bearer key headers = insert (bytes "Authorization") (bytes "Bearer " ++ key) headers

inject : Target → Map Bytes → Map Bytes
unfolding bearer
inject t headers =
    if t.provider =s bytes "anthropic"
    then insert (bytes "Anthropic-Version") (bytes "2023-06-01")
        (insert (bytes "X-Api-Key") t.config.api_key headers)
    else if t.provider =s bytes "gemini"
    then (if contains (bytes "/openai") t.config.base_url
        then bearer t.config.api_key headers
        else insert (bytes "X-Goog-Api-Key") t.config.api_key headers)
    else bearer t.config.api_key headers

send_to : Target → Request → Request
unfolding keep_auth inject joined_path
send_to t r =
    let url = split_scheme (base_url_of t) in
    let place = split_slash url.1 in
    record {
      scheme = url.0;
      url_host = place.0;
      host = place.0;
      path = joined_path place.1 t.new_path;
      headers =
          insert (bytes "X-Tkngate-Provider") t.provider
            (inject t (keep_auth (lookup (bytes "Authorization") r.headers) r.headers));
    }

unfoldable pub director : Map ProviderConfig → Request → Request
unfolding send_to trim_prefix
director providers r =
    let clean_path = trim_prefix (bytes "/") r.path in
    if is_set clean_path then send_to (target providers clean_path) r else r
