-- ===== src/Tests/Admission.antt =====
-- Two virtual keys, of which one is spent, and a request with the other.
use tkngate.Base.{ℕ, ◌≡◌, refl, true, false, none, some, List, [], ◌∷◌, leb, if◌then◌else◌}
use tkngate.Base.Int.{pos}
use tkngate.Base.Bytes.{Bytes, bytes, ◌=s◌}
use tkngate.Base.Maps.{lookup}
use tkngate.Float64.Scaled.{scaled}
use tkngate.Budget.Models.{green, red, BudgetStatus, VirtualKeyRecord, OrganizationRecord, Ledger}
use tkngate.Budget.Ledger.{Cluster, is_set, get_total_spend}
use tkngate.Budget.Ledger.Accounts.{get_organizations}
use tkngate.Budget.Guard.{
  BudgetConfig, Guard, checked, or_default, note_global, global_limit, check_total, check_ledger,
  same_zone, zone_of, threshold, of_int, status_of, check_budget, check_virtual_key_budget,
}
use tkngate.Budget.Guard.Breaker.{find_key, key_status, record_all, check_virtual_key_budget-status}
use tkngate.Limiter.{Rate, RateLimitConfig, allow, bucket_of, fresh}
use tkngate.Limiter.Isolation.{answers, only, only-answers}
use tkngate.Proxy.Streaming.{strip_prefix}
use tkngate.Proxy.Admission.{
  Verifier, Queries, Caller, Identity, Gate, admitted, admit, provider_of, auth_header, virtual_key,
  verify_key, key_matches, rbac_allows, org_spent_out, split_commas, trim_space,
}
use tkngate.Proxy.Admission.Keys.{IsAuthorized, admit-IsAuthorized}
use tkngate.Proxy.Admission.Circuit.{tripped_key_stays_out}
use tkngate.Proxy.Admission.Service.{IsGood, good_key_passes}

-- A bucket is the number of its tokens.
abbrev pub tokens : Rate scaled
tokens = record {
  Limiter = ℕ;
  new_limiter = λ r b. 1;
  allow = λ now n. if leb 1 n then (true, 0) else (false, 0);
}

-- A key is its own hash.
abbrev pub open_hash : Verifier
open_hash = record {
  cloud_enabled = false;
  validate_key = λ k. none;
  sha_hex = λ k. k;
  compare_hash = λ h k. false;
}

abbrev pub all_run : Queries
all_run = record {
  total = true;
  keys = true;
  organizations = true;
  key_check = true;
  key_update = true;
  session_insert = true;
  session_sum = true;
}

abbrev pub budget : BudgetConfig scaled
budget = record {
  global_limit_usd = pos 0;
  max_session_cost_usd = pos 0;
  amber_threshold_pct = pos 75;
  red_threshold_pct = pos 80;
}

abbrev pub row : Bytes → ℕ → VirtualKeyRecord scaled
row hash consumed = record {
  id = 1;
  key_hash = hash;
  name = bytes "agent";
  allocated_budget = pos 10000;
  consumed_budget = pos consumed;
  org_id = pos 3;
  allowed_providers = bytes "openai, groq";
  current_state = green;
  created_at = 0;
}

abbrev pub h1 : Bytes
h1 = bytes "tkngate-sk-1"

abbrev pub h2 : Bytes
h2 = bytes "tkngate-sk-2"

abbrev pub org : OrganizationRecord scaled
org = record {
  id = 3;
  name = bytes "acme";
  budget_limit_usd = pos 90000;
  consumed_usd = pos 7000;
  created_at = 0;
}

abbrev pub ledger : Ledger scaled
ledger = record {
  transactions = [];
  sessions = [];
  pool_nodes = [];
  organizations = org ∷ [];
  virtual_keys = row h1 8500 ∷ row h2 100 ∷ [];
  next_transaction = 1;
  next_organization = 4;
  next_key = 3;
  redis = [];
}

abbrev pub guard : Guard scaled
guard = record { ledger = some ledger; last_global_zone = green; alerts = [] }

abbrev pub gate : Gate scaled tokens open_hash
gate = record { guard = guard; limiters = [] }

abbrev pub alone : Cluster
alone = record { enabled = false; reachable = false }

abbrev pub limits : RateLimitConfig
limits = record { enabled = true; requests_per_minute = pos 60; burst_size = pos 1 }

abbrev pub caller : Caller
caller = record {
  provider_header = bytes "groq";
  original_auth = [];
  authorization = bytes "Bearer tkngate-sk-2";
  session_header = [];
}

pub caller-key : virtual_key (auth_header caller) ≡ some h2
unfolding virtual_key auth_header is_set strip_prefix
caller-key = refl

good : IsGood scaled tokens open_hash budget all_run ledger h2 (provider_of caller) (row h2 100)
unfolding key_matches verify_key rbac_allows org_spent_out get_organizations provider_of is_set ◌=s◌
    split_commas trim_space
good = record { first = refl; hashed = refl; allowed = refl; funded = refl }

abbrev total : BudgetStatus scaled
total = status_of scaled budget (pos 999999000) (pos 0)

abbrev own : BudgetStatus scaled
own = status_of scaled budget (pos 10000) (pos 100)

total_checked : (check_budget scaled budget alone true guard).0 ≡ checked total
unfolding check_budget check_ledger check_total note_global global_limit or_default same_zone
    get_total_spend zone_of threshold of_int status_of
total_checked = refl

total_open : same_zone total.zone red ≡ false
unfolding status_of zone_of threshold of_int same_zone
total_open = refl

own_checked : (check_virtual_key_budget scaled budget true true h2 guard).0 ≡ checked own
unfolding find_key key_status ◌=s◌
own_checked = check_virtual_key_budget-status scaled budget true h2 ledger guard refl

own_open : same_zone own.zone red ≡ false
unfolding status_of zone_of threshold of_int same_zone
own_open = refl

first_token : (allow scaled tokens limits 5 h2 []).0 ≡ true
unfolding allow bucket_of fresh lookup
first_token = refl

abbrev admitted_as : Identity
admitted_as = record { key_hash = h2; session_id = bytes "agent"; zone = own.zone }

key_admitted :
    (admit scaled tokens open_hash budget all_run alone limits 5 caller gate).0
    ≡ admitted admitted_as
key_admitted =
    good_key_passes scaled tokens open_hash budget all_run alone limits 5 caller gate ledger h2
      (row h2 100) total own refl refl refl refl caller-key good total_checked total_open
      own_checked own_open first_token

admit-IsAuthorized_example :
    IsAuthorized scaled tokens open_hash budget all_run ledger h2 (provider_of caller) admitted_as
admit-IsAuthorized_example =
    admit-IsAuthorized scaled tokens open_hash budget all_run alone limits 5 caller gate ledger h2
      admitted_as refl caller-key refl key_admitted

abbrev spent : BudgetStatus scaled
spent = status_of scaled budget (pos 10000) (pos 8500)

spent_checked : (check_virtual_key_budget scaled budget true true h1 guard).0 ≡ checked spent
unfolding find_key key_status ◌=s◌
spent_checked = check_virtual_key_budget-status scaled budget true h1 ledger guard refl

spent-red : spent.zone ≡ red
unfolding status_of zone_of threshold of_int
spent-red = refl

tripped_key_stays_out_example : ¬ (h2 ≡ h1)
unfolding record_all
tripped_key_stays_out_example =
    tripped_key_stays_out scaled tokens open_hash budget all_run alone limits 5 caller gate true h1
      ledger guard spent [] h2 admitted_as refl refl refl spent_checked spent-red tt refl caller-key
      key_admitted

-- The requests of a second identifier are between those of the first.
only-answers_example :
    let rs : List (Bytes × ℕ) = (h1, 1) ∷ (h2, 2) ∷ (h1, 3) ∷ [] in
    only h1 (answers scaled tokens limits [] rs) ≡ answers scaled tokens limits [] (only h1 rs)
only-answers_example =
    only-answers scaled tokens limits h1 ((h1, 1) ∷ (h2, 2) ∷ (h1, 3) ∷ []) [] [] refl
