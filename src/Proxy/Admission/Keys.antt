-- ===== src/Proxy/Admission/Keys.antt =====
-- Who is admitted with a virtual key of the ledger.
use tkngate.Base.{ℕ, ◌≡◌, refl, sym, ap, ◌∙◌, Bool, true, false, Option, none, some, find?, arith}
use tkngate.Base.Bytes.{Bytes}
use tkngate.Float64.{Float64}
use tkngate.Sql.{find?-true}
use tkngate.Budget.Models.{BudgetStatus, VirtualKeyRecord, Ledger}
use tkngate.Budget.Ledger.{Cluster}
use tkngate.Budget.Ledger.Accounts.{get_virtual_keys, get_organizations}
use tkngate.Budget.Guard.{
  BudgetConfig, Guard, Check, checked, refused, check_budget, check_virtual_key_budget,
}
use tkngate.Budget.Guard.Breaker.{check_budget-ledger}
use tkngate.Limiter.{Rate, RateLimitConfig, Manager}
use tkngate.Proxy.Admission.{
  Verifier, Queries, Caller, Identity, Admission, Gate, blocked, admitted, crashed, key_exhausted,
  provider_of, auth_header, virtual_key, key_matches, rbac_allows, org_spent_out, row_zone, by_zone,
  admit_row, admit_found, admit_listed, admit_local, admit_key, identify, past_breaker,
  after_bucket, limit_rate, admit,
}

module _ (F : Float64) (R : Rate F) (V : Verifier) (cfg : BudgetConfig F) (q : Queries) where
  -- What lets a caller with a virtual key pass.
  pub record IsAuthorized (l : Ledger F) (key provider : Bytes) (id : Identity) : Type 0 where
    pub row : VirtualKeyRecord F
    pub first : find? (λ k. key_matches V key k.key_hash) l.virtual_keys ≡ some row
    pub secret : key_matches V key row.key_hash ≡ true
    pub allowed : rbac_allows F R V row provider ≡ true
    pub funded : org_spent_out F R V row.org_id (get_organizations F q.organizations l) ≡ false
    pub hash : id.key_hash ≡ row.key_hash
    pub name : id.session_id ≡ row.name

  limit_rate-admitted :
      (rl : RateLimitConfig) (now : ℕ) (m : Manager F R) (d : Admission × Guard F) (id : Identity)
      → (limit_rate F R V cfg q rl now m d).0 ≡ admitted id
      → d.0 ≡ admitted id
  unfolding limit_rate after_bucket
  limit_rate-admitted rl now m (blocked why, g) id e = e
  limit_rate-admitted rl now m (crashed, g) id e = e
  limit_rate-admitted rl now m (admitted j, g) id e = ground arith

  pub by_zone-admitted :
      (who id : Identity) (c : Check (BudgetStatus F) × Guard F)
      → (by_zone F R V key_exhausted who c).0 ≡ admitted id
      → (id.key_hash ≡ who.key_hash) × (id.session_id ≡ who.session_id)
  unfolding by_zone
  by_zone-admitted who id (refused e, g) h = ground arith
  by_zone-admitted who id (checked s, g) h = ground arith

  -- The row that a caller is admitted by, with the check of its budget.
  pub record Passed (l : Ledger F) (key provider : Bytes) (g : Guard F) (id : Identity)
      : Type 0 where
    pub row : VirtualKeyRecord F
    pub first : find? (λ k. key_matches V key k.key_hash) l.virtual_keys ≡ some row
    pub allowed : rbac_allows F R V row provider ≡ true
    pub funded : org_spent_out F R V row.org_id (get_organizations F q.organizations l) ≡ false
    pub in_budget :
        (by_zone F R V key_exhausted
          (record { key_hash = row.key_hash; session_id = row.name; zone = row_zone F R V row })
          (check_virtual_key_budget F cfg q.key_check q.key_update row.key_hash g)).0
        ≡ admitted id

  admit_row-Passed :
      (l : Ledger F) (key provider : Bytes) (g : Guard F) (k : VirtualKeyRecord F) (id : Identity)
      → find? (λ k. key_matches V key k.key_hash) l.virtual_keys ≡ some k
      → (admit_row F R V cfg q l provider g k).0 ≡ admitted id
      → Passed l key provider g id
  unfolding admit_row
  admit_row-Passed l key provider g k id f e = record {
    row = k;
    first = f;
    allowed = ground arith;
    funded = ground arith;
    in_budget = ground arith;
  }

  admit_found-Passed :
      (l : Ledger F) (key provider : Bytes) (g : Guard F) (o : Option (VirtualKeyRecord F))
      (id : Identity)
      → find? (λ k. key_matches V key k.key_hash) l.virtual_keys ≡ o
      → (admit_found F R V cfg q l provider g o).0 ≡ admitted id
      → Passed l key provider g id
  unfolding admit_found
  admit_found-Passed l key provider g none id f e = absurd (ground arith)
  admit_found-Passed l key provider g (some k) id f e = admit_row-Passed l key provider g k id f e

  admit_listed-Passed :
      (l : Ledger F) (key provider : Bytes) (g : Guard F) (run : Bool) (id : Identity)
      → (admit_listed F R V cfg q l key provider g (get_virtual_keys F run l)).0 ≡ admitted id
      → Passed l key provider g id
  unfolding admit_listed get_virtual_keys
  admit_listed-Passed l key provider g false id e = absurd (ground arith)
  admit_listed-Passed l key provider g true id e = admit_found-Passed l key provider g _ id refl e

  pub identify-listed :
      (c : Cluster) (now : ℕ) (r : Caller) (g : Guard F) (l : Ledger F) (key : Bytes)
      → V.cloud_enabled ≡ false
      → virtual_key (auth_header r) ≡ some key
      → g.ledger ≡ some l
      → identify F R V cfg q c now r g
        ≡ admit_listed F R V cfg q l key (provider_of r) g (get_virtual_keys F q.keys l)
  unfolding identify admit_key admit_local
  identify-listed c now r g l key off k gl = rw (identify, k, admit_key, off, gl) refl

  identify-Passed :
      (c : Cluster) (now : ℕ) (r : Caller) (g : Guard F) (l : Ledger F) (key : Bytes)
      (id : Identity)
      → V.cloud_enabled ≡ false
      → virtual_key (auth_header r) ≡ some key
      → g.ledger ≡ some l
      → (identify F R V cfg q c now r g).0 ≡ admitted id
      → Passed l key (provider_of r) g id
  identify-Passed c now r g l key id off k gl e =
      admit_listed-Passed l key (provider_of r) g q.keys id
        (ap (λ d. d.0) (sym (identify-listed c now r g l key off k gl)) ∙ e)

  past_breaker-identify :
      (c : Cluster) (now : ℕ) (r : Caller) (s : Check (BudgetStatus F) × Guard F) (id : Identity)
      → (past_breaker F R V cfg q c now r s).0 ≡ admitted id
      → (identify F R V cfg q c now r s.1).0 ≡ admitted id
  unfolding past_breaker
  past_breaker-identify c now r (refused x, g) id e = e
  past_breaker-identify c now r (checked s, g) id e = ground arith

  pub admit-Passed :
      (c : Cluster) (rl : RateLimitConfig) (now : ℕ) (r : Caller) (gate : Gate F R V) (l : Ledger F)
      (key : Bytes) (id : Identity)
      → V.cloud_enabled ≡ false
      → virtual_key (auth_header r) ≡ some key
      → gate.guard.ledger ≡ some l
      → (admit F R V cfg q c rl now r gate).0 ≡ admitted id
      → Passed l key (provider_of r) (check_budget F cfg c q.total gate.guard).1 id
  unfolding admit
  admit-Passed c rl now r gate l key id off k gl e =
      identify-Passed c now r (check_budget F cfg c q.total gate.guard).1 l key id off k
        (check_budget-ledger F cfg c q.total gate.guard ∙ gl)
        (past_breaker-identify c now r _ id (limit_rate-admitted rl now gate.limiters _ id e))

  -- A caller with a virtual key is admitted, out of the cloud, only by the first row that the key
  -- matches, whose providers include the one that is asked for and whose organization, when the
  -- organizations can be read, has budget left. It goes on under that row's hash and name.
  pub admit-IsAuthorized :
      (c : Cluster) (rl : RateLimitConfig) (now : ℕ) (r : Caller) (gate : Gate F R V) (l : Ledger F)
      (key : Bytes) (id : Identity)
      → V.cloud_enabled ≡ false
      → virtual_key (auth_header r) ≡ some key
      → gate.guard.ledger ≡ some l
      → (admit F R V cfg q c rl now r gate).0 ≡ admitted id
      → IsAuthorized l key (provider_of r) id
  admit-IsAuthorized c rl now r gate l key id off k gl e =
      let p = admit-Passed c rl now r gate l key id off k gl e in
      let (hash, name) = by_zone-admitted _ id _ p.in_budget in
      record {
        row = p.row;
        first = p.first;
        secret = find?-true _ l.virtual_keys p.first;
        allowed = p.allowed;
        funded = p.funded;
        hash = hash;
        name = name;
      }
