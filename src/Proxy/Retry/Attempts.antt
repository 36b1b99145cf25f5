-- ===== src/Proxy/Retry/Attempts.antt =====
-- How often the provider is asked.
use mathlib.Core.Path.{subst}
use tkngate.Base.{
  ℕ, zero, suc, ◌+◌, ◌≤◌, ◌<◌, ◌≡◌, ◌≢◌, refl, ap, ◌∙◌, Bool, false, not, ◌&&◌, Option, none, some,
  leb, ◌==◌, arith, Bool-cases, Option-cases, inl, inr, ◌⊎◌,
}
use tkngate.Base.Int.{ℤ}
use tkngate.Base.Bytes.{Bytes, ◌=s◌}
use tkngate.Budget.Ledger.{is_set}
use tkngate.Proxy.Json.{JsonCodec}
use tkngate.Proxy.Retry.{
  Response, Request, Outcome, answered, no_answer, Network, RetryConfig, chat_path, has_suffix,
  fallback, failover, estimated_tokens, offloaded, Prepared, send, taken_over, offered, offer,
  keyed, prepare, judge, Round, done, next, follow, receive, transmit, one_round, retry,
  max_retries, execute,
}

module _ (cfg : RetryConfig) (K : JsonCodec) (N : Network) (session model : Bytes) where
  -- A count of the requests that the provider has got, and nothing else.
  pub record IsCounter (count : N.World → ℕ) : Type 0 where
    pub keys : (p s : Bytes) (n : ℤ) (w : N.World) → count (N.next_key p s n w).1 ≡ count w
    pub peers :
        (p m s : Bytes) (n : ℤ) (b : Bytes) (w : N.World)
        → count (N.offload p m s n b w).1 ≡ count w
    pub sends : (r : Request) (w : N.World) → count (N.round_trip r w).1 ≡ suc (count w)

  -- The test for the failover.
  abbrev pub fails_over : Request → Response → Bool
  fails_over r res =
      leb 500 res.status_code && (has_suffix r.path chat_path && not (r.provider =s fallback cfg))

  pub round_cases :
      (x : Round cfg K N session model)
      → ((o : Outcome) × (r : Request) × (w : N.World) × (x ≡ done o r w))
        ⊎ ((r : Request) × (w : N.World) × (x ≡ next r w))
  round_cases (done o r w) = inl (o, r, w, refl)
  round_cases (next r w) = inr (r, w, refl)

  module _ (count : N.World → ℕ) (counter : IsCounter count) where
    abbrev SameCount : ℕ → Prepared cfg K N session model → Type 0
    SameCount n (send r w) = count w ≡ n
    SameCount n (taken_over body w) = count w ≡ n

    offered-SameCount :
        (n : ℕ) (r : Request) (out : Option Bytes × N.World)
        → count out.1 ≡ n
        → SameCount n (offered cfg K N session model r out)
    unfolding offered
    offered-SameCount n r (none, w) h = h
    offered-SameCount n r (some body, w) h = h

    offer-SameCount :
        (r : Request) (w : N.World) → SameCount (count w) (offer cfg K N session model r w)
    unfolding offer
    offer-SameCount r w = elim (Bool-cases N.p2p_enabled) [
      | inl on ↦
          rw (on, offer)
            (offered-SameCount (count w) r _ (
              counter.peers r.provider model session (estimated_tokens cfg K N session model r)
                r.body w))
      | inr off ↦ rw (off, offer) refl
    ]

    keyed-SameCount :
        (n : ℕ) (r : Request) (out : Option Bytes × N.World)
        → count out.1 ≡ n
        → SameCount n (keyed cfg K N session model r out)
    unfolding keyed
    keyed-SameCount n r (none, w) h = rw (← h) (offer-SameCount r w)
    keyed-SameCount n r (some key, w) h = elim (Bool-cases (is_set key)) [
      | inl full ↦ rw (full, keyed) h
      | inr empty ↦ rw (empty, keyed) (rw (← h) (offer-SameCount r w))
    ]

    prepare-SameCount :
        (r : Request) (w : N.World) → SameCount (count w) (prepare cfg K N session model r w)
    unfolding prepare
    prepare-SameCount r w = elim (Bool-cases N.has_pool) [
      | inl on ↦
          rw (on, prepare)
            (keyed-SameCount (count w) r _
              (counter.keys r.provider session (estimated_tokens cfg K N session model r) w))
      | inr off ↦ rw (off, prepare) refl
    ]

    -- What one round adds, and when it ends with a 429.
    abbrev Counted : ℕ → ℕ → Round cfg K N session model → Type 0
    Counted left n (done o r w) =
        (count w ≤ suc n)
        × ((res : Response)
            → o ≡ answered res
            → res.status_code ≡ 429
            → (left ≡ 0) × (count w ≡ suc n))
        × (o ≢ no_answer)
    Counted left n (next r w) = (0 < left) × (count w ≡ suc n)

    limited_only :
        (res x : Response)
        → (res.status_code == 429) ≡ false
        → answered res ≡ answered x
        → x.status_code ≢ 429
    limited_only res x other e s = absurd (ground arith)

    taken_over_fine :
        (body : Bytes) (x : Response)
        → answered (offloaded cfg K N session model body) ≡ answered x
        → x.status_code ≢ 429
    unfolding offloaded
    taken_over_fine body x e s = absurd (ground arith)

    judge-Counted :
        (left : ℕ) (r : Request) (res : Response) (n : ℕ) (w : N.World)
        → count w ≡ suc n
        → Counted left n (follow cfg K N session model (judge cfg K N session model left r res) r w)
    unfolding judge follow
    judge-Counted zero r res n w h = (omega arith, λ x e s. (refl, h), ground arith)
    judge-Counted (suc left) r res n w h = elim (Bool-cases (res.status_code == 429)) [
      | inl limited ↦ rw (limited, judge) (omega arith, h)
      | inr other ↦ elim (Bool-cases (fails_over r res)) [
        | inl outage ↦ elim (Option-cases (failover cfg K (fallback cfg) r)) [
          | inl panics ↦
              rw (other, judge)
                (rw outage (rw panics (omega arith, λ x e s. absurd (ground arith), ground arith)))
          | inr (r', moves) ↦ rw (other, judge) (rw outage (rw moves (omega arith, h)))
        ]
        | inr fine ↦
            rw (other, judge)
              (rw fine (omega arith, λ x e s. absurd (limited_only res x other e s), ground arith))
      ]
    ]

    receive-Counted :
        (left : ℕ) (r : Request) (n : ℕ) (out : Option Response × N.World)
        → count out.1 ≡ suc n
        → Counted left n (receive cfg K N session model left r out)
    unfolding receive
    receive-Counted left r n (none, w) h =
        (omega arith, λ x e s. absurd (ground arith), ground arith)
    receive-Counted left r n (some res, w) h = judge-Counted left r res n w h

    transmit-Counted :
        (left : ℕ) (r : Request) (n : ℕ) (p : Prepared cfg K N session model)
        → SameCount n p
        → Counted left n (transmit cfg K N session model left r p)
    unfolding transmit
    transmit-Counted left r n (taken_over body w) h =
        (omega arith, λ x e s. absurd (taken_over_fine body x e s), ground arith)
    transmit-Counted left r n (send r' w) h =
        receive-Counted left r' n (N.round_trip r' w) (counter.sends r' w ∙ ap suc h)

    one_round-Counted :
        (left : ℕ) (r : Request) (w : N.World)
        → Counted left (count w) (one_round cfg K N session model left r w)
    unfolding one_round
    one_round-Counted left r w = transmit-Counted left r (count w) _ (prepare-SameCount r w)

    -- With these rounds left.
    abbrev Bounded : ℕ → ℕ → Outcome × Request × N.World → Type 0
    Bounded left n out =
        (count out.2 ≤ n + suc left)
        × ((res : Response)
            → out.0 ≡ answered res
            → res.status_code ≡ 429
            → count out.2 ≡ n + suc left)
        × (out.0 ≢ no_answer)

    retry-Bounded :
        (left : ℕ) (r : Request) (w : N.World)
        → Bounded left (count w) (retry cfg K N session model left r w)
    unfolding retry
    retry-Bounded zero r w =
        let c = one_round-Counted zero r w in
        elim (round_cases (one_round cfg K N session model zero r w)) [
          | inl (o, r', w', e) ↦
              let c' : Counted zero (count w) (done o r' w') =
                subst (λ x. Counted zero (count w) x) e c in
              rw (e, retry)
                (omega arith, λ res eq s. (let (a, b) = c'.1 res eq s in omega arith), c'.2)
          | inr (r', w', e) ↦
              let c' : Counted zero (count w) (next r' w') =
                subst (λ x. Counted zero (count w) x) e c in
              absurd (omega arith)
        ]
    retry-Bounded (suc left) r w =
        let c = one_round-Counted (suc left) r w in
        elim (round_cases (one_round cfg K N session model (suc left) r w)) [
          | inl (o, r', w', e) ↦
              let c' : Counted (suc left) (count w) (done o r' w') =
                subst (λ x. Counted (suc left) (count w) x) e c in
              rw (e, retry)
                (
                  omega arith,
                  λ res eq s. (let (a, b) = c'.1 res eq s in absurd (omega arith)),
                  c'.2,
                )
          | inr (r', w', e) ↦
              let c' : Counted (suc left) (count w) (next r' w') =
                subst (λ x. Counted (suc left) (count w) x) e c in
              let (a, b, d) = retry-Bounded left r' w' in
              rw (e, retry) (omega arith, λ res eq s. (let f = b res eq s in omega arith), d)
        ]

    -- The loop ends with an answer, an error of the network or a panic, never with a missing
    -- response, and the provider is asked at most four times.
    pub execute_bounds :
        (r : Request) (w : N.World)
        → let out = execute cfg K N session model r w in
          (count out.2 ≤ count w + 4) × (out.0 ≢ no_answer)
    unfolding execute
    execute_bounds r w = let (a, b, d) = retry-Bounded max_retries r w in (a, d)
