-- ===== src/Proxy/RoundTrip.antt =====
-- internal/proxy/middleware.go, `RoundTrip` as a whole: admission,
-- capture, the semantic cache, the retry loop, and the record of the response. `World` is the state of
-- the process, of which `Shared` names the parts that `RoundTrip` itself reads and writes. The shadow
-- request is in Proxy/Shadow, the body of a stream in Proxy/Streaming.
mod Process
pub mod Gated
pub mod Charged
use tkngate.Base.{ℕ, Bool, true, false, ◌&&◌, Option, none, some, List, [], ◌∷◌, if◌then◌else◌}
use tkngate.Base.Int.{ℤ, pos, pos_part}
use tkngate.Base.Bytes.{Bytes, bytes}
use tkngate.Base.Maps.{Map, insert}
use tkngate.Base.Text.{contains}
use tkngate.Float64.{Float64}
use tkngate.Budget.Models.{Transaction, Ledger}
use tkngate.Budget.Ledger.{Cluster, Runs, is_set, record_transaction}
use tkngate.Budget.Guard.{BudgetConfig, Guard}
use tkngate.Mesh.Reputation.{MeshConfig, ReputationManager, record_success}
use tkngate.Mesh.Moderation.{Moderation, check_moderation}
use tkngate.Cache.Semantic.{CacheEntry, InMemoryCache, Codec, get_entry, put_entry}
use tkngate.Pool.Drr.{DrrEngine, Route, routed, get_next_key}
use tkngate.Limiter.{Rate, RateLimitConfig}
use tkngate.Waf.{Engine}
use tkngate.Tokenizer.{Unicode, first_bytes, count, estimate_cost}
use tkngate.Proxy.Json.{JsonCodec}
use tkngate.Proxy.Payload.{canonicalize_payload}
use tkngate.Proxy.Admission.{
  Verifier, Queries, Caller, Identity, Denial, Admission, blocked, admitted, crashed, Gate, get,
  admit, caller_of, provider_of,
}
use tkngate.Proxy.Capture.{CaptureConfig, Input, Refusal, Captured, stopped, ready, Screen, capture}
use tkngate.Proxy.Capture as Capture
use tkngate.Proxy.Retry.{
  Response, Request, Outcome, answered, network_error, panicked, no_answer, Network, RetryConfig,
  execute,
}
use tkngate.Proxy.Account.{Usage, is_success, transaction_of, stream_transaction}
unfoldable pub use Process.*

module _ (S : Setup) (H : Shared S) (t : Course S) where
  unfoldable pub store_answer : Input → Response → S.float.Float → World S → Response × World S
  store_answer i res cost w = elim (H.cache w) [
    | none ↦ (res, w)
    | some c ↦
        if is_success res && is_set i.body
        then (
          record res { headers = insert (bytes "X-Tkngate-Cache") (bytes "MISS") res.headers },
          H.set_cache
              (put_entry S.cache_codec S.float t.now (canonicalize_payload S.codec i.body) res.body
                (pos res.status_code) cost c)
              w,
        )
        else (res, w)
  ]

  -- The ledger takes a transaction, out of the cloud; `none` is the call on a nil ledger.
  unfoldable pub record_cost : Transaction S.float → World S → Option (World S)
  unfolding keep_ledger
  record_cost tx w = if S.verifier.cloud_enabled then some w else elim (H.gate w).guard.ledger [
    | none ↦ none
    | some l ↦ some (keep_ledger S H t (record_transaction S.float S.cluster t.runs t.now tx l).1 w)
  ]

  unfoldable pub reward : Identity → Response → World S → World S
  reward id res w = elim (H.screen w).reputation [
    | none ↦ w
    | some m ↦
        if is_success res && is_set id.session_id
        then H.set_screen
            (record (H.screen w) {
              reputation =
                  some (record_success S.float S.capture.mesh t.run_success t.now id.session_id m);
            })
            w
        else w
  ]

  -- The body is read up to 10 MiB; what is left of it is the body from then on.
  unfoldable pub limited : Response → Response
  limited res = record res { body = first_bytes 10485760 res.body }

  -- The response is read, stored, counted and recorded.
  unfoldable pub finish : Identity → Request → Input → Response → World S → Result S × World S
  unfolding store_answer record_cost reward limited
  finish id r i whole w =
      let res = limited whole in
      let tokens = λ (b : Bytes). pos (count S.float S.unicode b i.model) in
      let cost =
        estimate_cost S.float S.unicode r.provider i.model (tokens i.body) (tokens res.body) in
      let stored = store_answer i res cost w in
      elim (record_cost (transaction_of S.float S.unicode S.usage id r i res) stored.1) [
        | none ↦ (aborted, stored.1)
        | some w' ↦ (returned stored.0, reward id res w')
      ]

  -- The input of a stream is recorded by a goroutine, here as soon as the stream starts.
  unfoldable pub start_stream : Identity → Request → Input → Response → World S → Result S × World S
  unfolding record_cost
  start_stream id r i res w =
      if is_set i.body
      then elim (record_cost (stream_transaction S.float S.unicode S.usage id r i) w) [
        | none ↦ (aborted, w)
        | some w' ↦ (streamed id i res, w')
      ]
      else (streamed id i res, w)

  unfoldable pub received : Identity → Input → Outcome × Request × World S → Result S × World S
  unfolding finish start_stream
  received id i (answered res, r, w) =
      let sent = record i { body = r.body } in
      (if is_streaming_response S res then start_stream id r sent res w else finish id r sent res w)
  received id i (network_error, r, w) = (failed, w)
  received id i (panicked, r, w) = (aborted, w)
  received id i (no_answer, r, w) = (aborted, w)

  unfoldable pub send_on : Identity → Input → Request → World S → Result S × World S
  unfolding received network_of
  send_on id i r w = received id i (
      execute S.retry S.codec (network_of S H t) id.session_id i.model (record r { body = i.body })
        w)

  unfoldable pub cached :
      Identity
      → Input
      → Request
      → World S
      → Option CacheEntry × InMemoryCache S.float
      → Result S × World S
  unfolding send_on
  cached id i r w (some e, c) = (from_cache e, H.set_cache c w)
  cached id i r w (none, c) = send_on id i r (H.set_cache c w)

  unfoldable pub look_up : Identity → Input → Request → World S → Result S × World S
  unfolding cached
  look_up id i r w = elim (H.cache w) [
    | none ↦ send_on id i r w
    | some c ↦
        if is_set i.body
        then cached id i r w
            (get_entry S.cache_codec S.float t.now (canonicalize_payload S.codec i.body) c)
        else send_on id i r w
  ]

  unfoldable pub screened :
      Identity → Request → World S → Captured × ScreenOf S → Result S × World S
  unfolding look_up
  screened id r w (stopped why, s) = (refused why, H.set_screen s w)
  screened id r w (Capture.crashed, s) = (aborted, H.set_screen s w)
  screened id r w (ready i, s) = look_up id i r (H.set_screen s w)

  unfoldable pub let_in :
      Option Bytes → Request → World S → Admission × GateOf S → Result S × World S
  unfolding screened
  let_in body r w (blocked why, g) = (turned_away why, H.set_gate g w)
  let_in body r w (crashed, g) = (aborted, H.set_gate g w)
  let_in body r w (admitted id, g) = screened id r (H.set_gate g w) (
      capture S.float S.codec S.engine S.unicode S.compress (check_moderation S.moderation)
        S.capture id.zone t.run_slash t.now id.session_id body (H.screen (H.set_gate g w)))

  -- The headers say who calls and which provider is asked.
  unfoldable pub round_trip : Option Bytes → Request → World S → Result S × World S
  unfolding let_in
  round_trip body r w =
      let caller = caller_of r.headers in
      let_in body (record r { provider = provider_of caller }) w
        (admit S.float S.rate S.verifier S.budget t.queries S.cluster S.limits t.now caller
          (H.gate w))
