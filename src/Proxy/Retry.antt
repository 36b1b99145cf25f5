-- ===== src/Proxy/Retry.antt =====
-- internal/proxy/middleware.go, the loop of `RoundTrip` that sends a request: retries after 429 and
-- the failover to another provider. What it calls is an interface, `Network`: the engine of the pool
-- keys, a peer that takes the request over, the provider itself, and the tokenizer. Closing the
-- bodies of failed responses is left out.
mod Failover
pub mod Attempts
pub mod Providers
use tkngate.Base.{
  ℕ, zero, suc, Bool, true, false, not, ◌&&◌, Option, none, some, List, [], ◌∷◌, ◌++◌, length, leb,
  ltb, ◌==◌, if◌then◌else◌,
}
use tkngate.Base.Int.{ℤ, pos}
use tkngate.Base.Bytes.{Bytes, bytes, ◌=s◌}
use tkngate.Base.Maps.{Map, lookup, insert, erase}
use tkngate.Budget.Ledger.{is_set}
use tkngate.Proxy.Json.{JsonCodec}
use tkngate.Proxy.Payload.{replace_model}
use tkngate.Proxy.Streaming.{strip_prefix}
unfoldable pub use Failover.*

-- `no_answer` is the nil response after the last round.
pub data Outcome : Type 0 where
  answered : Response → Outcome
  network_error panicked no_answer : Outcome

pub record Network : Type 1 where
  pub World : Type 0
  -- pool.GlobalDRR is set up, and config.Cfg.P2P.Enabled
  pub has_pool : Bool
  pub p2p_enabled : Bool
  pub next_key : Bytes → Bytes → ℤ → World → Option Bytes × World
  -- The response of a peer that has taken the request over.
  pub offload : Bytes → Bytes → Bytes → ℤ → Bytes → World → Option Bytes × World
  pub round_trip : Request → World → Option Response × World
  pub count : Bytes → Bytes → ℤ

abbrev pub max_retries : ℕ
max_retries = 3

module _ (cfg : RetryConfig) (K : JsonCodec) (N : Network) (session model : Bytes) where
  unfoldable pub estimated_tokens : Request → ℤ
  estimated_tokens r = if is_set r.body then N.count r.body model else pos 1000

  unfoldable pub attach_key : Bytes → Request → Request
  attach_key key r =
      if r.provider =s bytes "anthropic"
      then record r { headers = insert (bytes "X-Api-Key") key r.headers }
      else record r { headers = insert (bytes "Authorization") (bytes "Bearer " ++ key) r.headers }

  abbrev pub Loop : Type 0
  Loop = Outcome × Request × N.World

  -- The answer to a request that a peer has taken over.
  unfoldable pub offloaded : Bytes → Response
  offloaded body = record {
    status_code = 200;
    headers = (bytes "Content-Type", bytes "application/json") ∷ [];
    body = body;
  }

  -- What a round does before it sends: a key is attached, or a peer has answered.
  pub data Prepared : Type 0 where
    send : Request → N.World → Prepared
    taken_over : Bytes → N.World → Prepared

  -- The response of the peer, if it has one.
  unfoldable pub offered : Request → Option Bytes × N.World → Prepared
  offered r (none, w) = send r w
  offered r (some body, w) = taken_over body w

  unfoldable pub offer : Request → N.World → Prepared
  unfolding offered estimated_tokens
  offer r w =
      if N.p2p_enabled
      then offered r (N.offload r.provider model session (estimated_tokens r) r.body w)
      else send r w

  -- A key that is the empty string counts as none.
  unfoldable pub keyed : Request → Option Bytes × N.World → Prepared
  unfolding attach_key offer
  keyed r (none, w) = offer r w
  keyed r (some key, w) = if is_set key then send (attach_key key r) w else offer r w

  unfoldable pub prepare : Request → N.World → Prepared
  unfolding estimated_tokens keyed
  prepare r w =
      if N.has_pool
      then keyed r (N.next_key r.provider session (estimated_tokens r) w)
      else send r w

  -- What follows an answer of the provider, with these rounds left.
  pub data Verdict : Type 0 where
    stop : Outcome → Verdict
    again : Request → Verdict

  unfoldable pub judge : ℕ → Request → Response → Verdict
  unfolding fallback failover
  judge zero r res = stop (answered res)
  judge (suc left) r res =
      if res.status_code == 429
      then again r
      else if leb 500 res.status_code
          && (has_suffix r.path chat_path && not (r.provider =s fallback cfg))
      then elim (failover cfg K (fallback cfg) r) [ none ↦ stop panicked | some r' ↦ again r' ]
      else stop (answered res)

  pub data Round : Type 0 where
    done : Outcome → Request → N.World → Round
    next : Request → N.World → Round

  unfoldable pub follow : Verdict → Request → N.World → Round
  follow (stop o) r w = done o r w
  follow (again r') r w = next r' w

  unfoldable pub receive : ℕ → Request → Option Response × N.World → Round
  unfolding judge follow
  receive left r (none, w) = done network_error r w
  receive left r (some res, w) = follow (judge left r res) r w

  unfoldable pub transmit : ℕ → Request → Prepared → Round
  unfolding receive
  transmit left r (taken_over body w) = done (answered (offloaded body)) r w
  transmit left r (send r' w) = receive left r' (N.round_trip r' w)

  unfoldable pub one_round : ℕ → Request → N.World → Round
  unfolding prepare transmit
  one_round left r w = transmit left r (prepare r w)

  -- `for attempt := 0; attempt <= maxRetries; attempt++`, with the rounds left after this one.
  unfoldable pub retry : ℕ → Request → N.World → Loop
  unfolding one_round
  retry zero r w = elim (one_round zero r w) [
    | done o r' w' ↦ (o, r', w')
    | next r' w' ↦ (no_answer, r', w')
  ]
  retry (suc left) r w = elim (one_round (suc left) r w) [
    | done o r' w' ↦ (o, r', w')
    | next r' w' ↦ retry left r' w'
  ]

  unfoldable pub execute : Request → N.World → Loop
  execute r w = retry max_retries r w
