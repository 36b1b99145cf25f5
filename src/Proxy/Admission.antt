-- ===== src/Proxy/Admission.antt =====
-- internal/proxy/middleware.go, the first part of `RoundTrip`: who may send a request at all. The
-- circuit breakers, the virtual key or the session, the providers and the organization of the key,
-- and the rate limiter. SHA-256 in hex, bcrypt's comparison and the cloud's answer are parameters.
-- Names are ASCII: `strings.TrimSpace` takes ASCII white space off.
mod Headers
pub mod Keys
pub mod Circuit
pub mod Service
use tkngate.Base.{
  ℕ, zero, suc, Bool, true, false, not, ◌&&◌, ◌||◌, Option, none, some, List, [], ◌∷◌, ◌++◌, any,
  find?, leb, ◌==◌, if◌then◌else◌,
}
use tkngate.Base.Int.{ℤ, pos, negsuc}
use tkngate.Base.Bytes.{Bytes, bytes, ◌=s◌}
use tkngate.Base.Maps.{Map, lookup}
use tkngate.Float64.{Float64}
use tkngate.Sql.{Result, ok, err}
use tkngate.Budget.Models.{
  BudgetZone, green, amber, red, BudgetStatus, VirtualKeyRecord, OrganizationRecord, Ledger,
}
use tkngate.Budget.Ledger.{Cluster, is_set}
use tkngate.Budget.Ledger.Accounts.{get_virtual_keys, get_organizations}
use tkngate.Budget.Guard.{
  BudgetConfig, Guard, Check, checked, refused, same_zone, check_budget, check_session_budget,
  check_virtual_key_budget,
}
use tkngate.Limiter.{Rate, RateLimitConfig, Manager, allow}
use tkngate.Proxy.Streaming.{strip_prefix}
unfoldable pub use Headers.*

module _ (F : Float64) (R : Rate F) (V : Verifier) where
  pub record Gate : Type 0 where
    pub guard : Guard F
    pub limiters : Manager F R

  abbrev Decided : Type 0
  Decided = Admission × Guard F

  unfoldable pub rbac_allows : VirtualKeyRecord F → Bytes → Bool
  rbac_allows k provider =
      not (is_set k.allowed_providers)
      || any (λ a. trim_space a =s provider) (split_commas k.allowed_providers)

  unfoldable pub spent_out : Option (OrganizationRecord F) → Bool
  spent_out none = false
  spent_out (some o) = F.le o.budget_limit_usd o.consumed_usd

  unfoldable pub org_spent_out : ℤ → Result (List (OrganizationRecord F)) → Bool
  unfolding spent_out
  org_spent_out id (err e) = false
  org_spent_out (negsuc n) (ok orgs) = false
  org_spent_out (pos zero) (ok orgs) = false
  org_spent_out (pos (suc n)) (ok orgs) = spent_out (find? (λ o. o.id == suc n) orgs)

  -- The zone of the row itself, which stands when the check of the key fails.
  unfoldable pub row_zone : VirtualKeyRecord F → BudgetZone
  row_zone k =
      if F.le k.allocated_budget k.consumed_budget
      then red
      else if F.le (F.mul k.allocated_budget (F.lit 75 100)) k.consumed_budget
      then amber
      else green

  -- The end of a check of a key or a session: an error lets the request pass.
  unfoldable pub by_zone : Denial → Identity → Check (BudgetStatus F) × Guard F → Decided
  by_zone why id (refused e, g) = (admitted id, g)
  by_zone why id (checked s, g) =
      if same_zone s.zone red then (blocked why, g) else (admitted (record id { zone = s.zone }), g)

  module _ (cfg : BudgetConfig F) (q : Queries) where
    unfoldable pub admit_row : Ledger F → Bytes → Guard F → VirtualKeyRecord F → Decided
    unfolding org_spent_out row_zone
    admit_row l provider g k =
        if not (rbac_allows k provider)
        then (blocked provider_refused, g)
        else if org_spent_out k.org_id (get_organizations F q.organizations l)
        then (blocked organization_exhausted, g)
        else if not (is_set k.key_hash)
        then (blocked invalid_key, g)
        else by_zone key_exhausted
            (record { key_hash = k.key_hash; session_id = k.name; zone = row_zone k })
            (check_virtual_key_budget F cfg q.key_check q.key_update k.key_hash g)

    unfoldable pub admit_found : Ledger F → Bytes → Guard F → Option (VirtualKeyRecord F) → Decided
    unfolding admit_row
    admit_found l provider g none = (blocked invalid_key, g)
    admit_found l provider g (some k) = admit_row l provider g k

    unfoldable pub admit_listed :
        Ledger F → Bytes → Bytes → Guard F → Result (List (VirtualKeyRecord F)) → Decided
    unfolding admit_found
    admit_listed l key provider g (err e) = (blocked invalid_key, g)
    admit_listed l key provider g (ok ks) =
        admit_found l provider g (find? (λ k. key_matches V key k.key_hash) ks)

    -- LOCAL MODE
    unfoldable pub admit_local : Bytes → Bytes → Guard F → Option (Ledger F) → Decided
    unfolding admit_listed
    admit_local key provider g none = (crashed, g)
    admit_local key provider g (some l) =
        admit_listed l key provider g (get_virtual_keys F q.keys l)

    unfoldable pub admit_key : Bytes → Bytes → Guard F → Decided
    unfolding admit_local
    admit_key key provider g =
        if V.cloud_enabled
        then (cloud_admission (V.validate_key key), g)
        else admit_local key provider g g.ledger

    -- The legacy sessions, of which one may be missing.
    unfoldable pub admit_session : Cluster → ℕ → Bytes → Guard F → Decided
    admit_session c now id g =
        let who : Identity = record { key_hash = []; session_id = id; zone = green } in
        if is_set id
        then by_zone session_exhausted who
            (check_session_budget F cfg c q.session_insert q.session_sum now id g)
        else (admitted who, g)

    unfoldable pub identify : Cluster → ℕ → Caller → Guard F → Decided
    unfolding admit_key admit_session
    identify c now r g = elim (virtual_key (auth_header r)) [
      | none ↦ admit_session c now r.session_header g
      | some key ↦ admit_key key (provider_of r) g
    ]

    unfoldable pub past_breaker : Cluster → ℕ → Caller → Check (BudgetStatus F) × Guard F → Decided
    unfolding identify
    past_breaker c now r (refused e, g) = identify c now r g
    past_breaker c now r (checked s, g) =
        if same_zone s.zone red then (blocked global_exhausted, g) else identify c now r g

    -- The identifier of the rate limiter: the key, else the session.
    unfoldable pub rate_identifier : Identity → Bytes
    rate_identifier id = if is_set id.key_hash then id.key_hash else id.session_id

    unfoldable pub after_bucket : Identity → Guard F → Bool × Manager F R → Admission × Gate
    after_bucket id g (within, m) = (
      (if within then admitted id else blocked rate_exceeded),
      record { guard = g; limiters = m },
    )

    unfoldable pub limit_rate : RateLimitConfig → ℕ → Manager F R → Decided → Admission × Gate
    unfolding rate_identifier after_bucket
    limit_rate rl now m (blocked why, g) = (blocked why, record { guard = g; limiters = m })
    limit_rate rl now m (crashed, g) = (crashed, record { guard = g; limiters = m })
    limit_rate rl now m (admitted id, g) =
        if is_set (rate_identifier id)
        then after_bucket id g (allow F R rl now (rate_identifier id) m)
        else (admitted id, record { guard = g; limiters = m })

    -- From the first line of `RoundTrip` to the capture of the input.
    unfoldable pub admit : Cluster → RateLimitConfig → ℕ → Caller → Gate → Admission × Gate
    unfolding past_breaker limit_rate
    admit c rl now r gate =
        limit_rate rl now gate.limiters
          (past_breaker c now r (check_budget F cfg c q.total gate.guard))
