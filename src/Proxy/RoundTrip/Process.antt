-- ===== src/Proxy/RoundTrip/Process.antt =====
-- The process around `RoundTrip` of internal/proxy/middleware.go: its configuration, its state, and how
-- the retry loop gets keys from the pool of internal/pool/drr.go.
use tkngate.Base.{ℕ, Bool, Option, none, some}
use tkngate.Base.Int.{ℤ, pos}
use tkngate.Base.Bytes.{Bytes, bytes}
use tkngate.Base.Text.{contains}
use tkngate.Float64.{Float64}
use tkngate.Budget.Models.{Ledger}
use tkngate.Budget.Ledger.{Cluster, Runs}
use tkngate.Budget.Guard.{BudgetConfig}
use tkngate.Mesh.Moderation.{Moderation, check_moderation}
use tkngate.Cache.Semantic.{CacheEntry, InMemoryCache, Codec}
use tkngate.Pool.Drr.{DrrEngine, Route, routed, get_next_key}
use tkngate.Limiter.{Rate, RateLimitConfig}
use tkngate.Waf.{Engine}
use tkngate.Tokenizer.{Unicode, count}
use tkngate.Proxy.Json.{JsonCodec}
use tkngate.Proxy.Admission.{Verifier, Queries, Identity, Denial, Gate, get}
use tkngate.Proxy.Capture.{CaptureConfig, Input, Refusal, Screen}
use tkngate.Proxy.Retry.{Response, Network, RetryConfig}
use tkngate.Proxy.Account.{Usage}

-- The configuration, the libraries and the services.
pub record Setup : Type 1 where
  pub float : Float64
  pub rate : Rate float
  pub verifier : Verifier
  pub budget : BudgetConfig float
  pub cluster : Cluster
  pub limits : RateLimitConfig
  pub codec : JsonCodec
  pub cache_codec : Codec
  pub engine : Engine
  pub unicode : Unicode
  pub compress : Bytes → Bytes
  pub moderation : Moderation
  pub capture : CaptureConfig float
  pub retry : RetryConfig
  pub network : Network
  pub usage : Bytes → Option Usage
  -- crypto.Decrypt and Mesh.FreeRiderLimit
  pub decrypt : Bytes → Option Bytes
  pub free_rider_limit : ℤ

module _ (S : Setup) where
  abbrev pub World : Type 0
  World = S.network.World

  abbrev pub GateOf : Type 0
  GateOf = Gate S.float S.rate S.verifier

  abbrev pub ScreenOf : Type 0
  ScreenOf =
      Screen S.float S.codec S.engine S.unicode S.compress (check_moderation S.moderation) S.capture

  -- The guard with the ledger and the limiters; the firewall and the mesh; the cache; the engine of
  -- the pool.
  pub record Shared : Type 0 where
    pub gate : World → GateOf
    pub set_gate : GateOf → World → World
    pub screen : World → ScreenOf
    pub set_screen : ScreenOf → World → World
    pub cache : World → Option (InMemoryCache S.float)
    pub set_cache : InMemoryCache S.float → World → World
    pub engine : World → DrrEngine
    pub set_engine : DrrEngine → World → World

  -- What the driver does with the queries, and the time of each part.
  pub record Course : Type 0 where
    pub queries : Queries
    pub runs : Runs
    pub run_slash : Bool
    pub run_success : Bool
    pub run_pool : Bool
    pub run_quota : Bool
    pub now : ℕ

  -- `refused` stands for the 429 of `blockRequest`.
  pub data Result : Type 0 where
    turned_away : Denial → Result
    refused : Refusal → Result
    from_cache : CacheEntry → Result
    returned : Response → Result
    streamed : Identity → Input → Response → Result
    failed aborted : Result

  -- isStreamingResponse
  unfoldable pub is_streaming_response : Response → Bool
  is_streaming_response res =
      contains (bytes "text/event-stream") (get (bytes "Content-Type") res.headers)

  module _ (H : Shared) (t : Course) where
    -- A key of the pool; a denial, for whatever reason, is no key.
    unfoldable pub routed_key : Route → Option Bytes
    routed_key (routed key) = some key
    routed_key _ = none

    unfoldable pub keep_ledger : Ledger S.float → World → World
    keep_ledger l w =
        let g = (H.gate w).guard in
        H.set_gate (record (H.gate w) { guard = record g { ledger = some l } }) w

    unfoldable pub next_key : Bytes → Bytes → ℤ → World → Option Bytes × World
    unfolding routed_key keep_ledger
    next_key provider session tokens w = elim (H.gate w).guard.ledger [
      | none ↦ (none, w)
      | some l ↦
          let out =
            get_next_key S.float S.decrypt S.free_rider_limit (H.screen w).reputation t.run_pool
              t.run_quota provider session tokens l (H.engine w) in
          (routed_key out.0, H.set_engine out.2 (keep_ledger out.1 w))
    ]

    -- The retry loop asks the pool for its keys and the tokenizer for its estimates.
    unfoldable pub network_of : Network
    unfolding next_key
    network_of = record S.network {
      next_key = next_key;
      count = λ b m. pos (count S.float S.unicode b m);
    }
