-- ===== src/Pool/Drr.antt =====
-- internal/pool/drr.go: which donated key a request gets. `GetNextKey` holds the engine's lock from
-- the fairness test on, so it is one step; the field `deficits` of the engine is never used. The
-- engine reads the pool and takes quota from it through the ledger, and asks the reputation manager
-- for the requester's tier. `decrypt` is crypto.Decrypt, AES-GCM over a key in the environment.
pub mod Scan
pub mod Routing
pub mod Service
pub mod Denials
pub mod FreeRiders
pub mod Proofs
use tkngate.Base.{
  ℕ, suc, zero, ◌+◌, ◌%◌, Bool, true, false, not, ◌&&◌, Option, none, some, List, [], ◌∷◌, length,
  get_elem?, ltb, leb, if◌then◌else◌,
}
use tkngate.Base.Int.{ℤ, pos, ◌+ℤ◌, ltb_ℤ, leb_ℤ}
use tkngate.Base.Bytes.{Bytes}
use tkngate.Base.Maps.{Map, lookup, insert}
use tkngate.Float64.{Float64}
use tkngate.Sql.{DbError, Result, ok, err}
use tkngate.Budget.Models.{PoolNode, Ledger}
use tkngate.Budget.Ledger.{is_set}
use tkngate.Budget.Ledger.Accounts.{get_pool_nodes, decrement_pool_quota}
use tkngate.Mesh.Reputation.{
  TrustTier, untrusted, new, trusted, premium, ReputationManager, is_blacklisted, get_tier,
}

pub record DrrEngine : Type 0 where
  pub current_index : Map ℕ
  pub session_usage : Map ℤ

-- The errors of `GetNextKey` and, in the second line, of `VerifyAndRoute`; `out_of_range` is the panic
-- of `nodes[idx]`.
pub data RouteError : Type 0 where
  no_keys bucket_exhausted blacklisted untrusted_node no_usable_key out_of_range : RouteError
  zkp_not_ready proof_missing proof_invalid : RouteError

pub data Route : Type 0 where
  routed : Bytes → Route
  denied : RouteError → Route

-- What the loop over the keys ends with: a key of a node, and the index written last.
pub data ScanResult : Type 0 where
  found : PoolNode → Bytes → ℕ → ScanResult
  none_left : ℕ → ScanResult
  bad_index : ScanResult

-- Reading a missing entry of a Go map gives the zero value.
unfoldable pub usage_of : Bytes → Map ℤ → ℤ
usage_of id m = elim (lookup id m) [ none ↦ pos 0 | some v ↦ v ]

unfoldable pub index_of : Bytes → Map ℕ → ℕ
index_of p m = elim (lookup p m) [ none ↦ 0 | some v ↦ v ]

unfoldable pub is_premium_tier : TrustTier → Bool
is_premium_tier premium = true
is_premium_tier _ = false

unfoldable pub is_untrusted_tier : TrustTier → Bool
is_untrusted_tier untrusted = true
is_untrusted_tier _ = false

module _ (F : Float64) (decrypt : Bytes → Option Bytes) where
  -- The premium gate: a key of more than ten million tokens a minute is kept from a session of a
  -- lower tier.
  unfoldable pub gated : Option (ReputationManager F) → Bytes → PoolNode → Bool
  unfolding is_premium_tier
  gated none session node = false
  gated (some m) session node =
      is_set session
      && (ltb_ℤ (pos 10000000) node.measured_tpm_limit
          && not (is_premium_tier (get_tier F session m)))

  -- `for i := 0; i < len(nodes); i++`, on the rounds left.
  unfoldable pub scan : Option (ReputationManager F) → Bytes → List PoolNode → ℕ → ℕ → ScanResult
  scan reputation session nodes zero idx = none_left idx
  scan reputation session nodes (suc rounds) idx =
      let next = (idx + 1) % length nodes in
      let later = scan reputation session nodes rounds next in
      elim (get_elem? nodes idx) [
        | none ↦ bad_index
        | some node ↦
            if leb_ℤ node.remaining_tokens_quota (pos 0)
            then later
            else elim (decrypt node.blinded_key_hash) [
              | none ↦ later
              | some key ↦ if gated reputation session node then later else found node key next
            ]
      ]

  -- The two tests before the loop.
  unfoldable pub admission :
      ℤ → Option (ReputationManager F) → Bytes → DrrEngine → Option RouteError
  unfolding usage_of is_untrusted_tier
  admission limit reputation session d =
      if ltb_ℤ limit (usage_of session d.session_usage)
      then some bucket_exhausted
      else elim reputation [
        | none ↦ none
        | some m ↦
            if is_blacklisted F session m
            then some blacklisted
            else if is_untrusted_tier (get_tier F session m)
            then some untrusted_node
            else none
      ]

  abbrev pub State : Type 0
  State = Ledger F × DrrEngine

  -- A key that is handed out costs its node the estimate, and its session too.
  unfoldable pub hand_out : Bool → Bytes → Bytes → ℤ → PoolNode → ℕ → Ledger F → DrrEngine → State
  hand_out run provider session tokens node next l d = (
    decrement_pool_quota F run node.node_id tokens l,
    record d {
      current_index = insert provider next d.current_index;
      session_usage =
          (if is_set session
            then insert session (usage_of session d.session_usage +ℤ tokens) d.session_usage
            else d.session_usage);
    },
  )

  unfoldable pub settle :
      Bool → Bytes → Bytes → ℤ → ScanResult → Ledger F → DrrEngine → Route × Ledger F × DrrEngine
  unfolding hand_out
  settle run provider session tokens (found node key next) l d =
      let s = hand_out run provider session tokens node next l d in (routed key, s.0, s.1)
  settle run provider session tokens (none_left next) l d =
      (denied no_usable_key, l, record d { current_index = insert provider next d.current_index })
  settle run provider session tokens bad_index l d = (denied out_of_range, l, d)

  -- `if idx >= len(nodes) { idx = 0 }`
  unfoldable pub start_index : Bytes → ℕ → DrrEngine → ℕ
  unfolding index_of
  start_index provider n d =
      let idx = index_of provider d.current_index in if ltb idx n then idx else 0

  unfoldable pub choose :
      ℤ
      → Option (ReputationManager F)
      → Bool
      → Bytes
      → Bytes
      → ℤ
      → List PoolNode
      → Ledger F
      → DrrEngine
      → Route × Ledger F × DrrEngine
  unfolding admission scan settle start_index
  choose limit reputation run provider session tokens [] l d = (denied no_keys, l, d)
  choose limit reputation run provider session tokens (node ∷ rest) l d =
      elim (admission limit reputation session d) [
        | some e ↦ (denied e, l, d)
        | none ↦
            let nodes = node ∷ rest in
            settle run provider session tokens
              (scan reputation session nodes (length nodes) (start_index provider (length nodes) d))
              l d
      ]

  unfoldable pub with_nodes :
      ℤ
      → Option (ReputationManager F)
      → Bool
      → Bytes
      → Bytes
      → ℤ
      → Result (List PoolNode)
      → Ledger F
      → DrrEngine
      → Route × Ledger F × DrrEngine
  unfolding choose
  with_nodes limit reputation run provider session tokens (err e) l d = (denied no_keys, l, d)
  with_nodes limit reputation run provider session tokens (ok nodes) l d =
      choose limit reputation run provider session tokens nodes l d

  -- `GetNextKey`, once the ledger is there; `limit` is config.Cfg.Mesh.FreeRiderLimit.
  unfoldable pub get_next_key :
      ℤ
      → Option (ReputationManager F)
      → Bool
      → Bool
      → Bytes
      → Bytes
      → ℤ
      → Ledger F
      → DrrEngine
      → Route × Ledger F × DrrEngine
  unfolding with_nodes
  get_next_key limit reputation run_select run_update provider session tokens l d =
      with_nodes limit reputation run_update provider session tokens
        (get_pool_nodes F run_select provider l) l d
