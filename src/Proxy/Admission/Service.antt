-- ===== src/Proxy/Admission/Service.antt =====
-- A request with a good key is admitted.
use tkngate.Base.{ℕ, ◌≡◌, refl, ap, ◌∙◌, true, false, some, find?, arith}
use tkngate.Base.Bytes.{Bytes}
use tkngate.Float64.{Float64}
use tkngate.Budget.Models.{BudgetStatus, VirtualKeyRecord, Ledger, red}
use tkngate.Budget.Ledger.{Cluster, is_set}
use tkngate.Budget.Ledger.Accounts.{get_virtual_keys, get_organizations}
use tkngate.Budget.Guard.{
  BudgetConfig, Guard, Check, checked, refused, same_zone, check_budget, check_virtual_key_budget,
}
use tkngate.Budget.Guard.Breaker.{check_budget-ledger}
use tkngate.Limiter.{Rate, RateLimitConfig, Manager, allow}
use tkngate.Proxy.Admission.{
  Verifier, Queries, Caller, Identity, Admission, Gate, blocked, admitted, crashed, key_exhausted,
  provider_of, auth_header, virtual_key, key_matches, rbac_allows, org_spent_out, by_zone,
  admit_row, admit_found, admit_listed, identify, past_breaker, after_bucket, limit_rate,
  rate_identifier, admit,
}
use tkngate.Proxy.Admission.Keys.{identify-listed}
use tkngate.Proxy.Admission.Circuit.{check-reads_ledger}

module _ (F : Float64) (R : Rate F) (V : Verifier) (cfg : BudgetConfig F) (q : Queries) where
  -- What makes a row of the ledger good for a key and a provider.
  pub record IsGood (l : Ledger F) (key provider : Bytes) (row : VirtualKeyRecord F) : Type 0 where
    pub first : find? (λ k. key_matches V key k.key_hash) l.virtual_keys ≡ some row
    pub hashed : is_set row.key_hash ≡ true
    pub allowed : rbac_allows F R V row provider ≡ true
    pub funded : org_spent_out F R V row.org_id (get_organizations F q.organizations l) ≡ false

  by_zone-passes :
      (who : Identity) (t : BudgetStatus F) (d : Check (BudgetStatus F) × Guard F)
      → d.0 ≡ checked t
      → same_zone t.zone red ≡ false
      → (by_zone F R V key_exhausted who d).0 ≡ admitted (record who { zone = t.zone })
  unfolding by_zone
  by_zone-passes who t (refused e, g) h z = absurd (ground arith)
  by_zone-passes who t (checked s, g) h z = ground arith

  past_breaker-passes :
      (c : Cluster) (now : ℕ) (r : Caller) (s : BudgetStatus F)
      (d : Check (BudgetStatus F) × Guard F)
      → d.0 ≡ checked s
      → same_zone s.zone red ≡ false
      → past_breaker F R V cfg q c now r d ≡ identify F R V cfg q c now r d.1
  unfolding past_breaker
  past_breaker-passes c now r s (refused e, g) h z = refl
  past_breaker-passes c now r s (checked t, g) h z = ground arith

  listed-passes :
      (l : Ledger F) (key provider : Bytes) (g : Guard F) (row : VirtualKeyRecord F)
      (t : BudgetStatus F)
      → IsGood l key provider row
      → (check_virtual_key_budget F cfg q.key_check q.key_update row.key_hash g).0 ≡ checked t
      → same_zone t.zone red ≡ false
      → (admit_listed F R V cfg q l key provider g (get_virtual_keys F true l)).0
        ≡ admitted record { key_hash = row.key_hash; session_id = row.name; zone = t.zone }
  unfolding admit_listed get_virtual_keys
  listed-passes l key provider g row t good h z =
      rw (good.first, admit_found, admit_row, good.allowed, good.funded, good.hashed)
        (by_zone-passes _ t _ h z)

  limit_rate-passes :
      (rl : RateLimitConfig) (now : ℕ) (m : Manager F R) (d : Admission × Guard F) (id : Identity)
      → d.0 ≡ admitted id
      → is_set id.key_hash ≡ true
      → (allow F R rl now id.key_hash m).0 ≡ true
      → (limit_rate F R V cfg q rl now m d).0 ≡ admitted id
  unfolding limit_rate after_bucket rate_identifier
  limit_rate-passes rl now m (blocked why, g) id e s a = absurd (ground arith)
  limit_rate-passes rl now m (crashed, g) id e s a = absurd (ground arith)
  limit_rate-passes rl now m (admitted j, g) id e s a = ground arith

  -- Out of the cloud, a request whose key matches a row that is good for the provider is admitted under that row,
  -- when neither the global nor the key's budget is spent, the bucket of the key has a token, and
  -- the keys can be read.
  pub good_key_passes :
      (c : Cluster) (rl : RateLimitConfig) (now : ℕ) (r : Caller) (gate : Gate F R V) (l : Ledger F)
      (key : Bytes) (row : VirtualKeyRecord F) (s t : BudgetStatus F)
      → V.cloud_enabled ≡ false
      → q.keys ≡ true
      → q.key_check ≡ true
      → gate.guard.ledger ≡ some l
      → virtual_key (auth_header r) ≡ some key
      → IsGood l key (provider_of r) row
      → (check_budget F cfg c q.total gate.guard).0 ≡ checked s
      → same_zone s.zone red ≡ false
      → (check_virtual_key_budget F cfg true q.key_update row.key_hash gate.guard).0 ≡ checked t
      → same_zone t.zone red ≡ false
      → (allow F R rl now row.key_hash gate.limiters).0 ≡ true
      → (admit F R V cfg q c rl now r gate).0
        ≡ admitted record { key_hash = row.key_hash; session_id = row.name; zone = t.zone }
  unfolding admit
  good_key_passes c rl now r gate l key row s t off keys run gl k good global g_ok own o_ok bucket =
      let after = check_budget F cfg c q.total gate.guard in
      let ledger = check_budget-ledger F cfg c q.total gate.guard ∙ gl in
      let checks : (check_virtual_key_budget F cfg q.key_check q.key_update row.key_hash after.1).0
          ≡ checked t =
        rw run (
          check-reads_ledger F R V cfg q q.key_update q.key_update row.key_hash l after.1 gate.guard
            ledger gl
          ∙ own) in
      limit_rate-passes rl now gate.limiters _ _
        (ap (λ d. d.0)
            (past_breaker-passes c now r s after global g_ok
              ∙ identify-listed F R V cfg q c now r after.1 l key off k ledger)
          ∙ rw keys (listed-passes l key (provider_of r) after.1 row t good checks o_ok))
        good.hashed bucket
