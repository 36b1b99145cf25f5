-- ===== src/Pool/Drr/Service.antt =====
-- `GetNextKey` serves every session that it can serve.
use tkngate.Base.{
  ℕ, zero, ◌+◌, ◌<◌, ◌≤◌, ◌≡◌, ◌⊎◌, inl, inr, refl, ap, ◌∙◌, Bool, Option, none, some, List, [],
  ◌∷◌, length, get_elem?, lt_of_get_elem?, arith,
}
use native.Mathlib.Decide.{dec_lt}
use tkngate.Base.Int.{ℤ}
use tkngate.Base.Bytes.{Bytes}
use tkngate.Float64.{Float64}
use tkngate.Sql.{ok}
use tkngate.Budget.Models.{PoolNode, Ledger}
use tkngate.Budget.Ledger.Accounts.{get_pool_nodes}
use tkngate.Mesh.Reputation.{ReputationManager}
use tkngate.Pool.Drr.{DrrEngine, routed, admission, settle, start_index, get_next_key}
use tkngate.Pool.Drr.Scan.{IsUsable, scan_complete}
use tkngate.Pool.Drr.Routing.{choose-admitted, get_next_key-selected}

-- All of n rounds, from any start.
reach_all :
    (start j n : ℕ) → j < n → ((start ≤ j) × (j < start + n)) ⊎ ((j < start) × (j + n < start + n))
reach_all start j n h = elim (dec_lt j start) [
  | yes before ↦ inr (before, omega arith)
  | no after ↦ inl (omega arith, omega arith)
]

module _ (F : Float64) (decrypt : Bytes → Option Bytes) (limit : ℤ)
    (reputation : Option (ReputationManager F)) where
  -- The starting index is one of the nodes.
  pub start_index_lt :
      (provider : Bytes) (n : ℕ) (d : DrrEngine) → zero < n → start_index F decrypt provider n d < n
  unfolding start_index
  start_index_lt provider n d h = ground arith

  -- GetNextKey serves a session: if it is admitted and one of the provider's nodes has a key that is
  -- usable for it, it gets some key, wherever the rotation stands.
  pub get_next_key-serves :
      (run_select run_update : Bool) (provider session : Bytes) (tokens : ℤ) (l : Ledger F)
      (d : DrrEngine) (nodes : List PoolNode) (j : ℕ) (node : PoolNode) (usable_key : Bytes)
      → get_pool_nodes F run_select provider l ≡ ok nodes
      → admission F decrypt limit reputation session d ≡ none
      → get_elem? nodes j ≡ some node
      → IsUsable F decrypt reputation session node usable_key
      → (key : Bytes) × ((get_next_key F decrypt limit reputation run_select run_update provider
            session tokens l d).0
          ≡ routed key)
  unfolding settle
  get_next_key-serves run_select run_update provider session tokens l d [] j node usable_key
        selected admitted at_j u =
      absurd (ground arith)
  get_next_key-serves run_select run_update provider session tokens l d (n ∷ rest) j node usable_key
        selected admitted at_j u =
      let nodes = n ∷ rest in
      let start = start_index F decrypt provider (length nodes) d in
      let in_j : j < length nodes = lt_of_get_elem? nodes j node at_j in
      let (x, k, next, hit) =
        scan_complete F decrypt reputation session nodes (length nodes) start j node usable_key
          (start_index_lt provider (length nodes) d (omega arith)) in_j at_j u
          (reach_all start j (length nodes) in_j) in
      let out =
        get_next_key-selected F decrypt limit reputation run_select run_update provider session
          tokens l d nodes selected
        ∙ choose-admitted F decrypt limit reputation run_update provider session tokens n rest l d
            admitted in
      (k, ap (λ r. r.0) out ∙ rw hit refl)
