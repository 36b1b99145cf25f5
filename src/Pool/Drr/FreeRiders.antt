-- ===== src/Pool/Drr/FreeRiders.antt =====
-- The free-rider limit of the fairness engine, over any number of requests.
use tkngate.Base.{
  ◌≡◌, inl, inr, refl, sym, ap, ◌∙◌, Bool, true, false, ◌&&◌, if◌then◌else◌, Option, none, List, [],
  ◌∷◌, arith, All, All-map, Bool-cases,
}
use tkngate.Base.Int.{ℤ, pos, int_laws, ◌+ℤ◌, ◌≤ℤ◌, ltb_ℤ, +ℤ_parts}
use tkngate.Base.Bytes.{Bytes, ◌=s◌, =s_iff}
use tkngate.Float64.{Float64}
use tkngate.Budget.Models.{Ledger}
use tkngate.Budget.Ledger.{is_set}
use tkngate.Mesh.Reputation.{ReputationManager}
use tkngate.Pool.Drr.{DrrEngine, Route, routed, denied, usage_of, admission, get_next_key}
use tkngate.Pool.Drr.Routing.{get_next_key-IsServed}
use tkngate.Pool.Drr.Denials.{Route-cases, get_next_key-denied}

add_zero : (a : ℤ) → a +ℤ pos 0 ≡ a
add_zero a = grind int_laws

add_assoc : (a b c : ℤ) → (a +ℤ b) +ℤ c ≡ a +ℤ (b +ℤ c)
add_assoc a b c = grind int_laws

zero_add_below : (a b c : ℤ) → c ≤ℤ b → c ≡ pos 0 +ℤ a → a ≤ℤ b
zero_add_below a b c h e = grind int_laws

not_own : (b : Bool) (x y : ℤ) → (if b && false then x else y) ≡ y
not_own true x y = refl
not_own false x y = refl

module _ (F : Float64) (decrypt : Bytes → Option Bytes) (limit : ℤ) where
  -- A request and the ledger and the reputation that it meets: between two requests other parts of
  -- the program may have changed them in any way.
  pub record Request : Type 0 where
    pub ledger : Ledger F
    pub reputation : Option (ReputationManager F)
    pub run_select : Bool
    pub run_update : Bool
    pub provider : Bytes
    pub session : Bytes
    pub tokens : ℤ

  abbrev pub serve : DrrEngine → Request → DrrEngine
  serve d r =
      (get_next_key F decrypt limit r.reputation r.run_select r.run_update r.provider r.session
        r.tokens r.ledger d).2

  abbrev pub answer : DrrEngine → Request → Route
  answer d r =
      (get_next_key F decrypt limit r.reputation r.run_select r.run_update r.provider r.session
        r.tokens r.ledger d).0

  pub run_requests : List Request → DrrEngine → DrrEngine
  run_requests [] d = d
  run_requests (r ∷ rs) d = run_requests rs (serve d r)

  abbrev pub AllWithin : ℤ → DrrEngine → Type 0
  AllWithin cap d = (j : Bytes) → usage_of j d.session_usage ≤ℤ limit +ℤ cap

  admitted_below :
      (reputation : Option (ReputationManager F)) (session : Bytes) (d : DrrEngine)
      → admission F decrypt limit reputation session d ≡ none
      → usage_of session d.session_usage ≤ℤ limit
  unfolding admission
  admitted_below reputation session d e =
      elim (Bool-cases (ltb_ℤ limit (usage_of session d.session_usage))) [
        | inl over ↦ absurd (ground arith)
        | inr within ↦ ground arith
      ]

  charged_within : (cap tokens u : ℤ) → u ≤ℤ limit → tokens ≤ℤ cap → u +ℤ tokens ≤ℤ limit +ℤ cap
  charged_within cap tokens u h k = ground (arith, +ℤ_parts u tokens, +ℤ_parts limit cap)

  serve-AllWithin :
      (cap : ℤ) (r : Request) (d : DrrEngine)
      → r.tokens ≤ℤ cap
      → AllWithin cap d
      → AllWithin cap (serve d r)
  serve-AllWithin cap r d small w j =
      let out =
        get_next_key F decrypt limit r.reputation r.run_select r.run_update r.provider r.session
          r.tokens r.ledger d in
      elim (Route-cases out.0) [
        | inl (key, e) ↦
            let served =
              get_next_key-IsServed F decrypt limit r.reputation r.run_select r.run_update
                r.provider r.session r.tokens r.ledger d key e in
            rw (served.usage j) (elim (Bool-cases (is_set r.session && (r.session =s j))) [
              | inl own ↦
                  let same : r.session ≡ j = ground (arith, =s_iff r.session j) in
                  rw own (
                    charged_within cap r.tokens (usage_of j d.session_usage)
                      (rw (← same) (admitted_below r.reputation r.session d served.admitted)) small)
              | inr other ↦ rw other (w j)
            ])
        | inr (why, e) ↦
            let (_, spared) =
              get_next_key-denied F decrypt limit r.reputation r.run_select r.run_update r.provider
                r.session r.tokens r.ledger d in
            rw (spared why e).1 (w j)
      ]

  run_requests-AllWithin :
      (cap : ℤ) (rs : List Request) (d : DrrEngine)
      → All (λ r. r.tokens ≤ℤ cap) rs
      → AllWithin cap d
      → AllWithin cap (run_requests rs d)
  unfolding run_requests
  run_requests-AllWithin cap [] d small w = w
  run_requests-AllWithin cap (r ∷ rs) d (s, small) w =
      run_requests-AllWithin cap rs (serve d r) small (serve-AllWithin cap r d s w)

  -- The estimate of a request of the session `j` that is handed a key, and 0 of any other.
  granted : Bytes → Request → Route → ℤ
  granted j r (routed key) = if r.session =s j then r.tokens else pos 0
  granted j r (denied why) = pos 0

  -- What a session is handed in total, by the answers of the engine.
  pub handed_out : Bytes → List Request → DrrEngine → ℤ
  unfolding granted
  handed_out j [] d = pos 0
  handed_out j (r ∷ rs) d = granted j r (answer d r) +ℤ handed_out j rs (serve d r)

  serve-granted :
      (j : Bytes) (r : Request) (d : DrrEngine)
      → is_set j ≡ true
      → usage_of j (serve d r).session_usage
        ≡ usage_of j d.session_usage +ℤ granted j r (answer d r)
  unfolding granted
  serve-granted j r d named = elim (Route-cases (answer d r)) [
    | inl (key, e) ↦
        let served =
          get_next_key-IsServed F decrypt limit r.reputation r.run_select r.run_update r.provider
            r.session r.tokens r.ledger d key e in
        rw (served.usage j) (
          rw e (elim (Bool-cases (r.session =s j)) [
            | inl own ↦
                let same : r.session ≡ j = ground (arith, =s_iff r.session j) in
                let set : is_set r.session ≡ true = rw same named in rw set (rw own refl)
            | inr other ↦
                let u = usage_of j d.session_usage in
                rw other (not_own (is_set r.session) (u +ℤ r.tokens) u ∙ sym (add_zero u))
          ]))
    | inr (why, e) ↦
        let (_, spared) =
          get_next_key-denied F decrypt limit r.reputation r.run_select r.run_update r.provider
            r.session r.tokens r.ledger d in
        rw (spared why e).1 (rw e (sym (add_zero (usage_of j d.session_usage))))
  ]

  handed_out-usage :
      (j : Bytes) (rs : List Request) (d : DrrEngine)
      → is_set j ≡ true
      → usage_of j (run_requests rs d).session_usage
        ≡ usage_of j d.session_usage +ℤ handed_out j rs d
  unfolding run_requests handed_out
  handed_out-usage j [] d named = sym (add_zero (usage_of j d.session_usage))
  handed_out-usage j (r ∷ rs) d named =
      handed_out-usage j rs (serve d r) named
      ∙ (ap (λ u. u +ℤ handed_out j rs (serve d r)) (serve-granted j r d named)
          ∙ add_assoc (usage_of j d.session_usage) (granted j r (answer d r))
              (handed_out j rs (serve d r)))

  -- A named session that starts with no usage is handed at most the free-rider limit and one more
  -- request: if every request is estimated between 0 and cap tokens, the estimates of the session's
  -- requests that got a key add up to at most limit + cap, whatever the others ask for in between.
  pub handed_out-bounded :
      (cap : ℤ) (j : Bytes) (rs : List Request) (d : DrrEngine)
      → is_set j ≡ true
      → All (λ r. (pos 0 ≤ℤ r.tokens) × (r.tokens ≤ℤ cap)) rs
      → AllWithin cap d
      → usage_of j d.session_usage ≡ pos 0
      → handed_out j rs d ≤ℤ limit +ℤ cap
  handed_out-bounded cap j rs d named sized w fresh =
      zero_add_below (handed_out j rs d) (limit +ℤ cap) _
        (run_requests-AllWithin cap rs d (All-map _ _ (λ r p. p.1) rs sized) w j)
        (handed_out-usage j rs d named ∙ ap (λ u. u +ℤ handed_out j rs d) fresh)
