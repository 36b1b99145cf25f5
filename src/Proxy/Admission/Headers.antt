-- ===== src/Proxy/Admission/Headers.antt =====
-- internal/proxy/middleware.go, `RoundTrip`: what the headers of a request say, and how a virtual key
-- is recognised, in the cloud or by its hash. auth.VerifyKey is in internal/auth/keys.go.
use tkngate.Base.{
  ℕ, Bool, not, ◌&&◌, ◌||◌, Option, none, some, List, [], ◌∷◌, ◌++◌, leb, ◌==◌, if◌then◌else◌,
}
use tkngate.Base.Bytes.{Bytes, bytes, ◌=s◌}
use tkngate.Base.Maps.{Map, lookup}
use tkngate.Budget.Models.{BudgetZone, green, amber, red}
use tkngate.Budget.Ledger.{is_set}
use tkngate.Proxy.Streaming.{strip_prefix}

-- The headers of a request that decide on it; a missing header is empty.
pub record Caller : Type 0 where
  pub provider_header : Bytes
  pub original_auth : Bytes
  pub authorization : Bytes
  pub session_header : Bytes

-- `req.Header.Get` of a canonical name
unfoldable pub get : Bytes → Map Bytes → Bytes
get name headers = elim (lookup name headers) [ none ↦ [] | some v ↦ v ]

unfoldable pub caller_of : Map Bytes → Caller
unfolding get
caller_of headers = record {
  provider_header = get (bytes "X-Tkngate-Provider") headers;
  original_auth = get (bytes "X-Tkngate-Original-Auth") headers;
  authorization = get (bytes "Authorization") headers;
  session_header = get (bytes "X-Tkngate-Session-Id") headers;
}

-- cloud.ValidationResponse, as far as it is read.
pub record CloudKey : Type 0 where
  pub valid : Bool
  pub key_id : Bytes
  pub key_name : Bytes
  pub zone : Bytes

pub record Verifier : Type 0 where
  -- config.Cfg.Cloud.Enabled
  pub cloud_enabled : Bool
  -- cloud.ValidateKey; `none` is an error
  pub validate_key : Bytes → Option CloudKey
  -- hex.EncodeToString of sha256.Sum256
  pub sha_hex : Bytes → Bytes
  -- bcrypt.CompareHashAndPassword of a hash and a plaintext
  pub compare_hash : Bytes → Bytes → Bool

-- Whether the driver executes each of the queries.
pub record Queries : Type 0 where
  pub total : Bool
  pub keys : Bool
  pub organizations : Bool
  pub key_check : Bool
  pub key_update : Bool
  pub session_insert : Bool
  pub session_sum : Bool

-- Why a request is refused.
pub data Denial : Type 0 where
  global_exhausted invalid_key provider_refused organization_exhausted : Denial
  key_exhausted session_exhausted rate_exceeded : Denial

pub record Identity : Type 0 where
  pub key_hash : Bytes
  pub session_id : Bytes
  pub zone : BudgetZone

-- `crashed` is the call of a method of the nil ledger.
pub data Admission : Type 0 where
  blocked : Denial → Admission
  admitted : Identity → Admission
  crashed : Admission

unfoldable pub provider_of : Caller → Bytes
provider_of c = if is_set c.provider_header then c.provider_header else bytes "openai"

unfoldable pub auth_header : Caller → Bytes
auth_header c = if is_set c.original_auth then c.original_auth else c.authorization

-- The virtual key of the header: what `strings.TrimPrefix` leaves of "Bearer tkngate-sk-...".
unfoldable pub virtual_key : Bytes → Option Bytes
virtual_key header = elim (strip_prefix (bytes "Bearer tkngate-sk-") header) [
  | none ↦ none
  | some rest ↦ some (bytes "tkngate-sk-" ++ rest)
]

-- `strings.Split(s, ",")`
unfoldable pub next_part : ℕ → List Bytes → List Bytes
next_part c [] = (c ∷ []) ∷ []
next_part c (p ∷ ps) = (c ∷ p) ∷ ps

unfoldable pub split_commas : Bytes → List Bytes
unfolding next_part
split_commas [] = [] ∷ []
split_commas (c ∷ s) = let rest = split_commas s in if c == 44 then [] ∷ rest else next_part c rest

-- `strings.TrimSpace`
unfoldable pub is_space : ℕ → Bool
is_space c = (leb 9 c && leb c 13) || c == 32

unfoldable pub trim_left : Bytes → Bytes
unfolding is_space
trim_left [] = []
trim_left (c ∷ s) = if is_space c then trim_left s else c ∷ s

unfoldable pub trim_right : Bytes → Bytes
unfolding is_space
trim_right [] = []
trim_right (c ∷ s) = elim (trim_right s) [
  | [] ↦ if is_space c then [] else c ∷ []
  | x ∷ t ↦ c ∷ x ∷ t
]

unfoldable pub trim_space : Bytes → Bytes
unfolding trim_left trim_right
trim_space s = trim_right (trim_left s)

-- auth.VerifyKey
unfoldable pub verify_key : Verifier → Bytes → Bytes → Bool
verify_key V plaintext hash = V.compare_hash hash plaintext

-- Both kinds of stored hash are tried.
unfoldable pub key_matches : Verifier → Bytes → Bytes → Bool
unfolding verify_key
key_matches V key hash = (V.sha_hex key =s hash) || verify_key V key hash

-- The zone that the cloud reports.
unfoldable pub cloud_zone : Bytes → BudgetZone
cloud_zone z = if z =s bytes "RED" then red else if z =s bytes "AMBER" then amber else green

unfoldable pub cloud_admission : Option CloudKey → Admission
unfolding cloud_zone
cloud_admission none = blocked invalid_key
cloud_admission (some k) =
    if not k.valid
    then blocked key_exhausted
    else admitted record { key_hash = k.key_id; session_id = k.key_name; zone = cloud_zone k.zone }
