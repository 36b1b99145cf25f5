-- ===== src/Pool/Drr/Denials.antt =====
-- What a request that `GetNextKey` denies leaves behind.
use tkngate.Base.{
  ℕ, suc, zero, ◌+◌, ◌%◌, ◌<◌, ◌≡◌, ◌≢◌, ◌⊎◌, inl, inr, refl, sym, ◌∙◌, Bool, Option, some, List,
  [], ◌∷◌, length, get_elem?-lt, arith, Option-cases,
}
use native.Mathlib.Nat.{mod-lt}
use tkngate.Base.Int.{ℤ}
use tkngate.Base.Bytes.{Bytes}
use tkngate.Float64.{Float64}
use tkngate.Sql.{Result-cases}
use tkngate.Budget.Models.{PoolNode, Ledger}
use tkngate.Budget.Ledger.Accounts.{get_pool_nodes}
use tkngate.Mesh.Reputation.{ReputationManager}
use tkngate.Pool.Drr.{
  DrrEngine, Route, routed, denied, RouteError, no_keys, out_of_range, ScanResult, found, none_left,
  bad_index, scan, admission, settle, start_index, choose, get_next_key,
}
use tkngate.Pool.Drr.Scan.{scan_step}
use tkngate.Pool.Drr.Routing.{
  scan_of, choose-refused, choose-admitted, get_next_key-selected, get_next_key-failed,
}
use tkngate.Pool.Drr.Service.{start_index_lt}

pub Route-cases : (r : Route) → ((k : Bytes) × (r ≡ routed k)) ⊎ ((e : RouteError) × (r ≡ denied e))
Route-cases (routed k) = inl (k, refl)
Route-cases (denied e) = inr (e, refl)

denied-injective : (a b : RouteError) → denied a ≡ denied b → a ≡ b
denied-injective a b e = cc

found≢bad_index : (n : PoolNode) (k : Bytes) (i : ℕ) → found n k i ≢ bad_index
found≢bad_index n k i e = absurd (ground arith)

module _ (F : Float64) (decrypt : Bytes → Option Bytes) (limit : ℤ)
    (reputation : Option (ReputationManager F)) where
  -- A loop that starts at a node never leaves the nodes.
  scan_stays :
      (session : Bytes) (nodes : List PoolNode) (rounds idx : ℕ)
      → idx < length nodes
      → scan F decrypt reputation session nodes rounds idx ≢ bad_index
  unfolding scan
  scan_stays session nodes zero idx inside e = absurd (ground arith)
  scan_stays session nodes (suc rounds) idx inside e =
      let (x, at_idx) = get_elem?-lt nodes idx inside in
      elim (scan_step F decrypt reputation session nodes rounds idx x at_idx) [
        | inl (k, u, hit) ↦ absurd (found≢bad_index x k _ (sym hit ∙ e))
        | inr (skipped, skip) ↦
            scan_stays session nodes rounds ((idx + 1) % length nodes)
              (mod-lt (idx + 1) (omega arith)) (sym skip ∙ e)
      ]

  admission_why :
      (session : Bytes) (d : DrrEngine)
      → admission F decrypt limit reputation session d ≢ some out_of_range
  unfolding admission
  admission_why session d e = absurd (ground arith)

  -- What a denial leaves: the ledger, and what the sessions have used.
  abbrev Spared : Ledger F → DrrEngine → Route × Ledger F × DrrEngine → Type 0
  Spared l d out =
      (out.0 ≢ denied out_of_range)
      × ((e : RouteError)
          → out.0 ≡ denied e
          → (out.1 ≡ l) × (out.2.session_usage ≡ d.session_usage))

  settle-Spared :
      (run : Bool) (provider session : Bytes) (tokens : ℤ) (s : ScanResult) (l : Ledger F)
      (d : DrrEngine)
      → s ≢ bad_index
      → Spared l d (settle F decrypt run provider session tokens s l d)
  unfolding settle
  settle-Spared run provider session tokens (found node key next) l d h =
      (ground arith, λ e p. absurd (ground arith))
  settle-Spared run provider session tokens (none_left next) l d h =
      (ground arith, λ e p. (refl, refl))
  settle-Spared run provider session tokens bad_index l d h = absurd (h refl)

  denied-Spared :
      (l : Ledger F) (d : DrrEngine) (e : RouteError)
      → e ≢ out_of_range
      → Spared l d (denied e, l, d)
  denied-Spared l d e h = (λ p. h (denied-injective e out_of_range p), λ f p. (refl, refl))

  choose-Spared :
      (run : Bool) (provider session : Bytes) (tokens : ℤ) (nodes : List PoolNode) (l : Ledger F)
      (d : DrrEngine)
      → Spared l d (choose F decrypt limit reputation run provider session tokens nodes l d)
  unfolding choose
  choose-Spared run provider session tokens [] l d = denied-Spared l d no_keys (ground arith)
  choose-Spared run provider session tokens (n ∷ rest) l d =
      elim (Option-cases (admission F decrypt limit reputation session d)) [
        | inr (why, refused) ↦
            rw
              (choose-refused F decrypt limit reputation run provider session tokens n rest l d why
                refused)
              (denied-Spared l d why (λ p. admission_why session d (rw (← p) refused)))
        | inl admitted ↦
            rw
              (choose-admitted F decrypt limit reputation run provider session tokens n rest l d
                admitted)
              (settle-Spared run provider session tokens
                (scan_of F decrypt limit reputation provider session d (n ∷ rest)) l d
                (scan_stays session (n ∷ rest) (length (n ∷ rest))
                  (start_index F decrypt provider (length (n ∷ rest)) d)
                  (start_index_lt F decrypt limit reputation provider (length (n ∷ rest)) d
                    (omega arith))))
      ]

  -- GetNextKey never reads outside the list of the nodes, and a request that it denies costs
  -- nothing: the ledger and what every session has used are as before.
  pub get_next_key-denied :
      (run_select run_update : Bool) (provider session : Bytes) (tokens : ℤ) (l : Ledger F)
      (d : DrrEngine)
      → let out =
          get_next_key F decrypt limit reputation run_select run_update provider session tokens l
            d in
        (out.0 ≢ denied out_of_range)
        × ((e : RouteError)
            → out.0 ≡ denied e
            → (out.1 ≡ l) × (out.2.session_usage ≡ d.session_usage))
  get_next_key-denied run_select run_update provider session tokens l d =
      elim (Result-cases (get_pool_nodes F run_select provider l)) [
        | inl (nodes, selected) ↦
            rw
              (get_next_key-selected F decrypt limit reputation run_select run_update provider
                session tokens l d nodes selected)
              (choose-Spared run_update provider session tokens nodes l d)
        | inr (why, refused) ↦
            rw
              (get_next_key-failed F decrypt limit reputation run_select run_update provider session
                tokens l d why refused)
              (denied-Spared l d no_keys (ground arith))
      ]
