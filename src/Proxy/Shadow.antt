-- ===== src/Proxy/Shadow.antt =====
-- internal/proxy/middleware.go, the shadow mode: the copy of a request for a second provider. net/url
-- and the draw of a random number are parameters; the names of headers are canonical.
use tkngate.Base.{
  ◌≡◌, refl, Bool, true, false, not, ◌&&◌, ◌||◌, Option, none, some, [], ◌∷◌, ◌++◌, if◌then◌else◌,
  Bool-cases, inl, inr,
}
use tkngate.Base.Bytes.{Bytes, bytes, ◌=s◌}
use tkngate.Base.Maps.{Map, lookup}
use tkngate.Base.Text.{has_prefix}
use tkngate.Float64.{Float64}
use tkngate.Budget.Ledger.{is_set}
use tkngate.Proxy.Director.{ProviderConfig, trim_slash}
use tkngate.Proxy.Json.{JsonCodec}
use tkngate.Proxy.Payload.{replace_model}
use tkngate.Proxy.Retry.{has_suffix}

pub record ShadowConfig (F : Float64) : Type 0 where
  pub enabled : Bool
  pub traffic_fraction : F.Float
  pub target_provider : Bytes
  pub target_model : Bytes

-- A URL that `url.Parse` read: `u.Scheme`, `u.Hostname()` and `u.String()`.
pub record ShadowUrl : Type 0 where
  pub scheme : Bytes
  pub hostname : Bytes
  pub text : Bytes

pub record ShadowRequest : Type 0 where
  pub url : Bytes
  pub headers : Map Bytes
  pub body : Bytes

-- Whether an answered request is mirrored; `draw` is what rand.Float64 gave.
unfoldable pub is_mirrored : (F : Float64) → ShadowConfig F → F.Float → Bytes → Bytes → Bool
is_mirrored F c draw path body =
    c.enabled
    && is_set body
    && has_suffix path (bytes "/chat/completions")
    && not (F.le c.traffic_fraction draw)

unfoldable pub is_web : ShadowUrl → Bool
is_web u = (u.scheme =s bytes "https") || (u.scheme =s bytes "http")

unfoldable pub is_internal : ShadowUrl → Bool
is_internal u =
    (u.hostname =s bytes "localhost")
    || (u.hostname =s bytes "127.0.0.1")
    || (u.hostname =s bytes "::1")
    || has_prefix (bytes "10.") u.hostname
    || has_prefix (bytes "192.168.") u.hostname
    || has_prefix (bytes "169.254.") u.hostname

unfoldable pub shadow_headers : Bytes → ProviderConfig → Map Bytes
shadow_headers provider c =
    (bytes "Content-Type", bytes "application/json")
    ∷ (if provider =s bytes "anthropic"
        then (bytes "X-Api-Key", c.api_key) ∷ (bytes "Anthropic-Version", bytes "2023-06-01") ∷ []
        else (bytes "Authorization", bytes "Bearer " ++ c.api_key) ∷ [])

unfoldable pub shadow_request :
    Bytes → ProviderConfig → Bytes → Option ShadowUrl → Option ShadowRequest
unfolding is_web is_internal shadow_headers
shadow_request provider c body none = none
shadow_request provider c body (some u) =
    if not (is_web u)
    then none
    else if is_internal u && not (provider =s bytes "ollama")
    then none
    else some record {
      url = u.text ++ bytes "/chat/completions";
      headers = shadow_headers provider c;
      body = body;
    }

shadow_request-internal :
    (provider : Bytes)
    → (c : ProviderConfig) → (body : Bytes) → (u : ShadowUrl) → is_internal u ≡ true
    → (provider =s bytes "ollama") ≡ false
    → shadow_request provider c body (some u) ≡ none
unfolding shadow_request
shadow_request-internal provider c body u internal other = elim (Bool-cases (is_web u)) [
  | inl web ↦ rw (web, internal, other) refl
  | inr strange ↦ rw strange refl
]

module _ (K : JsonCodec) (parse : Bytes → Option ShadowUrl) where
  -- A panic of replaceModel is recovered, and ends it.
  unfoldable pub with_body : Bytes → ProviderConfig → Option Bytes → Option ShadowRequest
  unfolding shadow_request
  with_body provider c none = none
  with_body provider c (some body) = shadow_request provider c body (parse (trim_slash c.base_url))

  unfoldable pub to_configured :
      Bytes → Bytes → Bytes → Option ProviderConfig → Option ShadowRequest
  unfolding with_body
  to_configured body provider model none = none
  to_configured body provider model (some c) = with_body provider c (replace_model K body model)

  -- The request that fireShadowRequest sends, if any.
  unfoldable pub fire_shadow_request :
      Map ProviderConfig → Bytes → Bytes → Bytes → Option ShadowRequest
  unfolding to_configured
  fire_shadow_request providers body provider model =
      to_configured body provider model (lookup provider providers)

  with_body-internal :
      (provider : Bytes)
      → (c : ProviderConfig) → (u : ShadowUrl) → parse (trim_slash c.base_url) ≡ some u
      → is_internal u ≡ true
      → (provider =s bytes "ollama") ≡ false
      → (b : Option Bytes) → with_body provider c b ≡ none
  unfolding with_body
  with_body-internal provider c u parses internal other none = refl
  with_body-internal provider c u parses internal other (some b) =
      rw parses (shadow_request-internal provider c b u internal other)

  -- No provider but ollama is sent a copy at an address that is recognised as internal.
  fire_shadow_request-internal :
      (providers : Map ProviderConfig)
      → (body provider model : Bytes) → (c : ProviderConfig) → (u : ShadowUrl)
      → lookup provider providers ≡ some c
      → parse (trim_slash c.base_url) ≡ some u
      → is_internal u ≡ true
      → (provider =s bytes "ollama") ≡ false
      → fire_shadow_request providers body provider model ≡ none
  unfolding fire_shadow_request to_configured
  fire_shadow_request-internal providers body provider model c u found parses internal other =
      rw found (with_body-internal provider c u parses internal other (replace_model K body model))
