-- ===== src/Proxy/RoundTrip/Gated.antt =====
-- Which requests reach a provider.
use tkngate.Base.{
  ℕ, ◌≡◌, ◌≢◌, refl, ◌∙◌, Bool, true, false, not, ◌&&◌, Option, some, arith, if◌then◌else◌,
}
use tkngate.Base.Bytes.{Bytes, ◌=s◌}
use tkngate.Budget.Models.{Ledger}
use tkngate.Cache.Semantic.{InMemoryCache}
use tkngate.Waf.{detect_jailbreak, redact_pii}
use tkngate.Mesh.Moderation.{check_moderation}
use tkngate.Budget.Ledger.{is_set}
use tkngate.Proxy.Payload.{extract_prompt_string}
use tkngate.Proxy.Admission.{
  Caller, Identity, Admission, blocked, admitted, crashed, provider_of, auth_header, virtual_key,
  admit, caller_of,
}
use tkngate.Proxy.Admission.Keys.{IsAuthorized, admit-IsAuthorized}
use tkngate.Proxy.Capture.{Input, Captured, stopped, ready, answered, moderated_rewrite, capture}
use tkngate.Proxy.Capture as Capture
use tkngate.Proxy.Retry.{Request}
use tkngate.Proxy.RoundTrip.{
  Setup, World, GateOf, ScreenOf, Shared, Course, screened, let_in, round_trip,
}

module _ (S : Setup) (H : Shared S) (t : Course S) where
  -- Who sends the request, and that the firewall and the moderation have let its body pass.
  pub record IsCleared (caller : Caller) (key : Bytes) (l : Ledger S.float) (body : Bytes)
      (w : World S) : Type 0 where
    pub id : Identity
    pub authorized :
        IsAuthorized S.float S.rate S.verifier S.budget t.queries l key (provider_of caller) id
    pub clean : detect_jailbreak S.engine S.capture.waf (H.screen w).custom_blocklist body ≡ false
    pub safe :
        (let prompt = extract_prompt_string S.codec (redact_pii S.engine body) in
          if S.capture.moderated && is_set prompt
          then check_moderation S.moderation prompt
          else some true)
        ≡ some true

module _ (S : Setup) (H : Shared S) (t : Course S) (count : World S → ℕ) where
  -- A count of the requests to the providers: what `RoundTrip` writes itself leaves it.
  pub record IsMeter : Type 0 where
    pub gates : (g : GateOf S) (w : World S) → count (H.set_gate g w) ≡ count w
    pub screens : (s : ScreenOf S) (w : World S) → count (H.set_screen s w) ≡ count w
    pub caches : (c : InMemoryCache S.float) (w : World S) → count (H.set_cache c w) ≡ count w

  module _ (meter : IsMeter) where
    screened-ready :
        (id : Identity) (r : Request) (w : World S) (c : Captured × ScreenOf S)
        → count (screened S H t id r w c).1 ≢ count w
        → (i : Input) × (c.0 ≡ ready i)
    unfolding screened
    screened-ready id r w (stopped why, s) asked = absurd (asked (meter.screens s w))
    screened-ready id r w (Capture.crashed, s) asked = absurd (asked (meter.screens s w))
    screened-ready id r w (ready i, s) asked = (i, refl)

    let_in-admitted :
        (body : Option Bytes) (r : Request) (w : World S) (d : Admission × GateOf S)
        → count (let_in S H t body r w d).1 ≢ count w
        → (id : Identity) × (i : Input) × (d.0 ≡ admitted id)
          × ((capture S.float S.codec S.engine S.unicode S.compress
                (check_moderation S.moderation)
                S.capture
                id.zone
                t.run_slash
                t.now
                id.session_id
                body
                (H.screen (H.set_gate d.1 w))).0
              ≡ ready i)
    unfolding let_in
    let_in-admitted body r w (blocked why, g) asked = absurd (asked (meter.gates g w))
    let_in-admitted body r w (crashed, g) asked = absurd (asked (meter.gates g w))
    let_in-admitted body r w (admitted id, g) asked =
        let (i, e) =
          screened-ready id r (H.set_gate g w) _ (λ same. asked (same ∙ meter.gates g w)) in
        (id, i, refl, e)

    capture-clean :
        (id : Identity) (b : Bytes) (s : ScreenOf S) (i : Input)
        → (capture S.float S.codec S.engine S.unicode S.compress
            (check_moderation S.moderation)
            S.capture
            id.zone
            t.run_slash
            t.now
            id.session_id
            (some b)
            s).0
          ≡ ready i
        → detect_jailbreak S.engine S.capture.waf s.custom_blocklist b ≡ false
    unfolding capture
    capture-clean id b s i e = ground arith

    moderated_rewrite-safe :
        (id : Identity) (b : Bytes) (pii : Bool) (s : ScreenOf S) (i : Input)
        → (moderated_rewrite S.float S.codec S.engine S.unicode S.compress
            (check_moderation S.moderation)
            S.capture
            id.zone
            t.run_slash
            t.now
            id.session_id
            pii
            b
            s).0
          ≡ ready i
        → (let prompt = extract_prompt_string S.codec b in
            if S.capture.moderated && is_set prompt
            then check_moderation S.moderation prompt
            else some true)
          ≡ some true
    unfolding moderated_rewrite answered
    moderated_rewrite-safe id b pii s i e = ground arith

    capture-safe :
        (id : Identity) (b : Bytes) (s : ScreenOf S) (i : Input)
        → (capture S.float S.codec S.engine S.unicode S.compress
            (check_moderation S.moderation)
            S.capture
            id.zone
            t.run_slash
            t.now
            id.session_id
            (some b)
            s).0
          ≡ ready i
        → (let prompt = extract_prompt_string S.codec (redact_pii S.engine b) in
            if S.capture.moderated && is_set prompt
            then check_moderation S.moderation prompt
            else some true)
          ≡ some true
    unfolding capture
    capture-safe id b s i e =
        let body = redact_pii S.engine b in
        moderated_rewrite-safe id body (not (body =s b)) s i (ground arith)

    -- Out of the cloud, a request with a virtual key and a body makes the proxy ask a provider only
    -- under a row of the ledger that lets the key use the provider that the headers name, only if the
    -- firewall finds nothing in the body, and, where prompts are moderated, only if the moderation
    -- finds the prompt of the redacted body safe. The requests that are counted are all that the retry
    -- loop sends, also those to a fallback provider, for which the row is not read again.
    pub round_trip-IsCleared :
        (key b : Bytes) (l : Ledger S.float) (r : Request) (w : World S)
        → S.verifier.cloud_enabled ≡ false
        → virtual_key (auth_header (caller_of r.headers)) ≡ some key
        → (H.gate w).guard.ledger ≡ some l
        → count (round_trip S H t (some b) r w).1 ≢ count w
        → IsCleared S H t (caller_of r.headers) key l b (
            H.set_gate
              (admit S.float S.rate S.verifier S.budget t.queries S.cluster S.limits t.now
                (caller_of r.headers)
                (H.gate w)).1
              w)
    unfolding round_trip
    round_trip-IsCleared key b l r w off k ledger asked =
        let caller = caller_of r.headers in
        let sent : Request = record r { provider = provider_of caller } in
        let (id, i, who, what) = let_in-admitted (some b) sent w _ asked in
        record {
          id = id;
          authorized =
              admit-IsAuthorized S.float S.rate S.verifier S.budget t.queries S.cluster S.limits
                t.now caller (H.gate w) l key id off k ledger who;
          clean = capture-clean id b _ i what;
          safe = capture-safe id b _ i what;
        }
