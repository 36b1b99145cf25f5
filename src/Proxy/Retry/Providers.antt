-- ===== src/Proxy/Retry/Providers.antt =====
-- To which provider and host a request goes.
use mathlib.Core.Path.{subst}
use tkngate.Base.{
  ℕ, zero, suc, ◌≡◌, refl, sym, ◌∙◌, true, false, Option, none, some, ◌==◌, if◌then◌else◌, arith,
  Bool-cases, Option-cases, inl, inr, ◌⊎◌,
}
use tkngate.Base.Bytes.{Bytes, bytes, ◌=s◌}
use tkngate.Budget.Ledger.{is_set}
use tkngate.Proxy.Json.{JsonCodec}
use tkngate.Proxy.Retry.{
  Response, Request, Network, RetryConfig, Destination, destination, fallback, failover,
  estimated_tokens, attach_key, Prepared, send, taken_over, offered, offer, keyed, prepare, judge,
  Round, done, next, follow, receive, transmit, one_round, retry, execute,
}
use tkngate.Proxy.Retry.Attempts.{round_cases, fails_over}

-- The host of a failover: the one that the switch has for the fallback provider, else the first one.
abbrev pub fallback_host : RetryConfig → Request → Bytes
fallback_host cfg came = elim (destination (fallback cfg)) [ none ↦ came.host | some d ↦ d.host ]

-- The provider and the host are those of the request as it came, or the provider is the fallback, and
-- the request is marked as failed over and goes to the host of a failover.
abbrev pub IsRouted : RetryConfig → Request → Request → Type 0
IsRouted cfg came r =
    ((r.provider ≡ came.provider) × (r.host ≡ came.host))
    ⊎ ((r.provider ≡ fallback cfg) × (r.was_failover ≡ true) × (r.host ≡ fallback_host cfg came))

module _ (cfg : RetryConfig) (K : JsonCodec) where
  -- What a failover makes of a request.
  failover_effect :
      (provider : Bytes) (r r' : Request)
      → failover cfg K provider r ≡ some r'
      → (r'.provider ≡ provider)
        × (r'.was_failover ≡ true)
        × (destination provider ≡ none → r'.host ≡ r.host)
        × ((d : Destination) → destination provider ≡ some d → r'.host ≡ d.host)
  unfolding failover
  failover_effect provider r r' e =
      (ground arith, ground arith, λ unknown. ground arith, λ d found. ground arith)

  unmoved :
      (p r : Request)
      → destination (fallback cfg) ≡ none
      → IsRouted cfg p r
      → r.host ≡ fallback_host cfg p
  unmoved p r unknown (inl first) = first.1 ∙ sym (rw (unknown, fallback_host) refl)
  unmoved p r unknown (inr second) = second.2

  failover-host :
      (p r r' : Request)
      → failover cfg K (fallback cfg) r ≡ some r'
      → IsRouted cfg p r
      → r'.host ≡ fallback_host cfg p
  failover-host p r r' moves h =
      let effect = failover_effect (fallback cfg) r r' moves in
      elim (Option-cases (destination (fallback cfg))) [
        | inl unknown ↦ effect.2 unknown ∙ unmoved p r unknown h
        | inr (d, found) ↦ effect.3 d found ∙ sym (rw (found, fallback_host) refl)
      ]

  module _ (N : Network) (session model : Bytes) where
    abbrev IsRoutedRound : Request → Round cfg K N session model → Type 0
    IsRoutedRound p (done o r w) = IsRouted cfg p r
    IsRoutedRound p (next r w) = IsRouted cfg p r

    abbrev IsRoutedPrepared : Request → Prepared cfg K N session model → Type 0
    IsRoutedPrepared p (send r w) = IsRouted cfg p r
    IsRoutedPrepared p (taken_over b w) = Unit

    attach_key-IsRouted :
        (p : Request) (key : Bytes) (r : Request)
        → IsRouted cfg p r
        → IsRouted cfg p (attach_key cfg K N session model key r)
    unfolding attach_key
    attach_key-IsRouted p key r h = elim (Bool-cases (r.provider =s bytes "anthropic")) [
      | inl yes_it_is ↦ rw (yes_it_is, attach_key) h
      | inr other ↦ rw (other, attach_key) h
    ]

    offered-IsRouted :
        (p : Request) (r : Request) (out : Option Bytes × N.World)
        → IsRouted cfg p r
        → IsRoutedPrepared p (offered cfg K N session model r out)
    unfolding offered
    offered-IsRouted p r (none, w) h = h
    offered-IsRouted p r (some body, w) h = tt

    offer-IsRouted :
        (p : Request) (r : Request) (w : N.World)
        → IsRouted cfg p r
        → IsRoutedPrepared p (offer cfg K N session model r w)
    unfolding offer
    offer-IsRouted p r w h =
        elim N.p2p_enabled
          as (λ b. IsRoutedPrepared p (
            if b
            then offered cfg K N session model r (
                N.offload r.provider model session (estimated_tokens cfg K N session model r) r.body
                  w)
            else send r w)) [ true ↦ offered-IsRouted p r _ h | false ↦ h ]

    keyed-IsRouted :
        (p : Request) (r : Request) (out : Option Bytes × N.World)
        → IsRouted cfg p r
        → IsRoutedPrepared p (keyed cfg K N session model r out)
    unfolding keyed
    keyed-IsRouted p r (none, w) h = offer-IsRouted p r w h
    keyed-IsRouted p r (some key, w) h =
        elim (is_set key)
          as (λ b. IsRoutedPrepared p (
            if b
            then send (attach_key cfg K N session model key r) w
            else offer cfg K N session model r w)) [
              | true ↦ attach_key-IsRouted p key r h
              | false ↦ offer-IsRouted p r w h
            ]

    prepare-IsRouted :
        (p : Request) (r : Request) (w : N.World)
        → IsRouted cfg p r
        → IsRoutedPrepared p (prepare cfg K N session model r w)
    unfolding prepare
    prepare-IsRouted p r w h =
        elim N.has_pool
          as (λ b. IsRoutedPrepared p (
            if b
            then keyed cfg K N session model r
                (N.next_key r.provider session (estimated_tokens cfg K N session model r) w)
            else send r w)) [ true ↦ keyed-IsRouted p r _ h | false ↦ h ]

    judge-IsRouted :
        (p : Request) (left : ℕ) (r : Request) (res : Response) (w : N.World)
        → IsRouted cfg p r
        → IsRoutedRound p
            (follow cfg K N session model (judge cfg K N session model left r res) r w)
    unfolding judge follow
    judge-IsRouted p zero r res w h = h
    judge-IsRouted p (suc left) r res w h = elim (Bool-cases (res.status_code == 429)) [
      | inl limited ↦ rw (limited, judge) h
      | inr other ↦ elim (Bool-cases (fails_over cfg K N session model r res)) [
        | inl outage ↦ elim (Option-cases (failover cfg K (fallback cfg) r)) [
          | inl panics ↦ rw (other, judge) (rw outage (rw panics h))
          | inr (r', moves) ↦
              let effect = failover_effect (fallback cfg) r r' moves in
              let host = failover-host p r r' moves h in
              rw (other, judge) (rw outage (rw moves (inr (effect.0, effect.1, host))))
        ]
        | inr fine ↦ rw (other, judge) (rw fine h)
      ]
    ]

    receive-IsRouted :
        (p : Request) (left : ℕ) (r : Request) (out : Option Response × N.World)
        → IsRouted cfg p r
        → IsRoutedRound p (receive cfg K N session model left r out)
    unfolding receive
    receive-IsRouted p left r (none, w) h = h
    receive-IsRouted p left r (some res, w) h = judge-IsRouted p left r res w h

    transmit-IsRouted :
        (p : Request) (left : ℕ) (r : Request) (x : Prepared cfg K N session model)
        → IsRouted cfg p r
        → IsRoutedPrepared p x
        → IsRoutedRound p (transmit cfg K N session model left r x)
    unfolding transmit
    transmit-IsRouted p left r (taken_over b w) h k = h
    transmit-IsRouted p left r (send r' w) h k = receive-IsRouted p left r' (N.round_trip r' w) k

    one_round-IsRouted :
        (p : Request) (left : ℕ) (r : Request) (w : N.World)
        → IsRouted cfg p r
        → IsRoutedRound p (one_round cfg K N session model left r w)
    unfolding one_round
    one_round-IsRouted p left r w h = transmit-IsRouted p left r _ h (prepare-IsRouted p r w h)

    retry-IsRouted :
        (p : Request) (left : ℕ) (r : Request) (w : N.World)
        → IsRouted cfg p r
        → IsRouted cfg p (retry cfg K N session model left r w).1
    unfolding retry
    retry-IsRouted p zero r w h =
        let c = one_round-IsRouted p zero r w h in
        elim (round_cases cfg K N session model (one_round cfg K N session model zero r w)) [
          | inl (o, r', w', e) ↦ rw (e, retry) (subst (λ x. IsRoutedRound p x) e c)
          | inr (r', w', e) ↦ rw (e, retry) (subst (λ x. IsRoutedRound p x) e c)
        ]
    retry-IsRouted p (suc left) r w h =
        let c = one_round-IsRouted p (suc left) r w h in
        elim (round_cases cfg K N session model (one_round cfg K N session model (suc left) r w)) [
          | inl (o, r', w', e) ↦ rw (e, retry) (subst (λ x. IsRoutedRound p x) e c)
          | inr (r', w', e) ↦
              rw (e, retry) (retry-IsRouted p left r' w' (subst (λ x. IsRoutedRound p x) e c))
        ]

    -- Whatever the providers answer, the request with which the retry loop ends has the provider and
    -- the host with which it came, or it has the fallback provider, is marked as failed over, and has
    -- the host that the switch names for that provider: the host with which it came, if none is named.
    pub execute-IsRouted :
        (r : Request) (w : N.World) → IsRouted cfg r (execute cfg K N session model r w).1
    unfolding execute
    execute-IsRouted r w = retry-IsRouted r 3 r w (inl (refl, refl))
