-- ===== src/Pool/Drr/Proofs.antt =====
-- `VerifyAndRoute` of internal/pool/drr.go: the proofs that peers send. The verification itself is
-- Groth16 by the gnark library, `verify`; there is none before the engine is set up.
use tkngate.Base.{
  ℕ, ◌≡◌, ◌≢◌, inl, inr, refl, sym, ◌∙◌, Bool-cases, Option-cases, Bool, true, not, Option, none,
  some, if◌then◌else◌, arith, List,
}
use tkngate.Base.Int.{ℤ}
use tkngate.Base.Bytes.{Bytes, bytes}
use tkngate.Float64.{Float64}
use tkngate.Budget.Models.{Ledger}
use tkngate.Budget.Ledger.{is_set}
use tkngate.Mesh.Reputation.Trust.{Event, run_events}
use tkngate.Mesh.Reputation.Trust.Blacklist.{blacklist_permanent}
use tkngate.Mesh.Reputation.{MeshConfig, ReputationManager, slash}
use tkngate.Pool.Drr.{
  DrrEngine, Route, routed, denied, RouteError, zkp_not_ready, proof_missing, proof_invalid,
  admission, get_next_key,
}
use tkngate.Pool.Drr.Routing.{get_next_key-IsServed}

module _ (F : Float64) (decrypt : Bytes → Option Bytes) (cfg : MeshConfig F) (limit : ℤ)
    (Proof Nonce : Type 0) (verify : Option (Proof → Nonce → Bool)) where
  abbrev pub Outcome : Type 0
  Outcome = Route × Option (ReputationManager F) × Ledger F × DrrEngine

  -- A sender without an id is not slashed.
  pub punish : Bool → ℕ → Bytes → Option (ReputationManager F) → Option (ReputationManager F)
  punish run now session none = none
  punish run now session (some m) =
      if is_set session
      then some (slash F cfg run now session (bytes "invalid ZKP proof") m).1
      else some m

  unfoldable pub route_unproved :
      Bool
      → Bool
      → Bytes
      → Bytes
      → ℤ
      → Option (ReputationManager F)
      → Ledger F
      → DrrEngine
      → Outcome
  route_unproved run_select run_update provider session tokens m l d =
      let out = get_next_key F decrypt limit m run_select run_update provider session tokens l d in
      (out.0, m, out.1, out.2)

  unfoldable pub verify_and_route :
      Bool
      → Bool
      → Bool
      → Bool
      → ℕ
      → Bytes
      → Bytes
      → ℤ
      → Option Proof
      → Nonce
      → Option (ReputationManager F)
      → Ledger F
      → DrrEngine
      → Outcome
  unfolding punish route_unproved
  verify_and_route strict run_slash run_select run_update now provider session tokens proof nonce m
        l d =
      if not strict
      then route_unproved run_select run_update provider session tokens m l d
      else elim verify [
        | none ↦ (denied zkp_not_ready, m, l, d)
        | some check ↦ elim proof [
          | none ↦ (denied proof_missing, m, l, d)
          | some p ↦
              if check p nonce
              then route_unproved run_select run_update provider session tokens m l d
              else (denied proof_invalid, punish run_slash now session m, l, d)
        ]
      ]

  denied≢routed : (e : RouteError) (key : Bytes) → denied e ≢ routed key
  denied≢routed e key h = absurd (ground arith)

  -- In strict mode a request gets a key only with a proof that the engine accepts, and then it gets
  -- what GetNextKey answers.
  pub verify_and_route-strict :
      (run_slash run_select run_update : Bool) (now : ℕ) (provider session : Bytes) (tokens : ℤ)
      (proof : Option Proof) (nonce : Nonce) (m : Option (ReputationManager F)) (l : Ledger F)
      (d : DrrEngine) (key : Bytes)
      → let out =
          verify_and_route true run_slash run_select run_update now provider session tokens proof
            nonce m l d in
        out.0 ≡ routed key
        → (check : Proof → Nonce → Bool) × (p : Proof) × (verify ≡ some check)
          × (proof ≡ some p)
          × (check p nonce ≡ true)
          × (out ≡ route_unproved run_select run_update provider session tokens m l d)
  unfolding verify_and_route
  verify_and_route-strict run_slash run_select run_update now provider session tokens proof nonce m
        l d key e =
      let out =
        verify_and_route true run_slash run_select run_update now provider session tokens proof
          nonce m l d in
      elim (Option-cases verify) [
        | inl off ↦
            let eq : out.0 ≡ denied zkp_not_ready = rw (off, verify_and_route) refl in
            absurd (denied≢routed zkp_not_ready key (sym eq ∙ e))
        | inr (check, on) ↦ elim (Option-cases proof) [
          | inl missing ↦
              let eq : out.0 ≡ denied proof_missing = rw (on, verify_and_route) (rw missing refl) in
              absurd (denied≢routed proof_missing key (sym eq ∙ e))
          | inr (p, given) ↦ elim (Bool-cases (check p nonce)) [
            | inl good ↦
                (check, p, on, given, good, rw (on, verify_and_route) (rw given (rw good refl)))
            | inr bad ↦
                let eq : out.0 ≡ denied proof_invalid =
                  rw (on, verify_and_route) (rw given (rw bad refl)) in
                absurd (denied≢routed proof_invalid key (sym eq ∙ e))
          ]
        ]
      ]

module _ (F : Float64) (decrypt : Bytes → Option Bytes) (cfg : MeshConfig F) (limit : ℤ) where
  -- A node that Slash has blacklisted never gets a key again: whatever happens to the reputation
  -- manager, the ledger and the engine meanwhile, GetNextKey does not answer its requests with a key.
  pub blacklisted_never_routed :
      (run_slash : Bool) (now : ℕ) (id reason : Bytes) (m : ReputationManager F)
      (es : List (Event F)) (run_select run_update : Bool) (provider : Bytes) (tokens : ℤ)
      (l : Ledger F) (d : DrrEngine) (key : Bytes)
      → (slash F cfg run_slash now id reason m).0 ≡ true
      → let m' = run_events F cfg (slash F cfg run_slash now id reason m).1 es in
        (get_next_key F decrypt limit (some m') run_select run_update provider id tokens l d).0
        ≢ routed key
  unfolding admission
  blacklisted_never_routed run_slash now id reason m es run_select run_update provider tokens l d
        key banned e =
      let m' = run_events F cfg (slash F cfg run_slash now id reason m).1 es in
      let (listed, _) = blacklist_permanent F cfg run_slash now id reason m es banned in
      let served =
        get_next_key-IsServed F decrypt limit (some m') run_select run_update provider id tokens l d
          key e in
      let admitted = served.admitted in absurd (ground (arith, listed, admitted))
