-- ===== src/Tests/Pool.antt =====
-- The fairness engine on a pool of three keys: one is spent, one is kept for premium nodes.
use tkngate.Base.{◌≡◌, ◌≢◌, refl, true, false, Option, none, some, List, [], ◌∷◌, arith}
use tkngate.Base.Int.{◌≤ℤ◌, ℤ, pos, ◌+ℤ◌}
use tkngate.Base.Bytes.{Bytes, bytes, ◌=s◌}
use tkngate.Base.Maps.{lookup}
use tkngate.Float64.Scaled.{scaled}
use tkngate.Sql.{ok}
use tkngate.Budget.Models.{PoolNode, Ledger}
use tkngate.Budget.Ledger.{is_set}
use tkngate.Budget.Ledger.Accounts.{get_pool_nodes}
use tkngate.Mesh.Reputation.{
  trusted, MeshConfig, NodeReputation, ReputationManager, is_blacklisted, get_tier,
}
use tkngate.Pool.Drr.{
  DrrEngine, routed, denied, out_of_range, RouteError, usage_of, index_of, gated, scan, admission,
  hand_out, settle, start_index, choose, with_nodes, get_next_key, is_premium_tier,
  is_untrusted_tier,
}
use tkngate.Pool.Drr.Scan.{IsUsable}
use tkngate.Pool.Drr.Routing.{IsServed, get_next_key-IsServed}
use tkngate.Pool.Drr.Service.{get_next_key-serves}
use tkngate.Pool.Drr.Denials.{get_next_key-denied}
use tkngate.Pool.Drr.FreeRiders.{Request, AllWithin, handed_out, handed_out-bounded}

abbrev pub config : MeshConfig scaled
config = record {
  reputation_enabled = true;
  initial_trust_score = pos 50000;
  slash_penalty = pos 20000;
  blacklist_threshold = pos 10000;
  premium_trust_minimum = pos 90000;
}

abbrev pub peer : NodeReputation scaled
peer = record {
  node_id = bytes "peer";
  trust_score = pos 25000;
  total_requests = 4;
  violations = 1;
  tier = trusted;
  blacklisted = false;
  last_activity = 7;
}

abbrev pub manager : ReputationManager scaled
manager = record { nodes = (bytes "peer", peer) ∷ []; db = none; listening = true; changes = [] }

abbrev pub decrypt : Bytes → Option Bytes
decrypt b = some b

abbrev spent : PoolNode
spent = record {
  node_id = bytes "n1";
  provider_type = bytes "openai";
  blinded_key_hash = bytes "k1";
  measured_tpm_limit = pos 100;
  remaining_tokens_quota = pos 0;
}

abbrev large : PoolNode
large = record {
  node_id = bytes "n2";
  provider_type = bytes "openai";
  blinded_key_hash = bytes "k2";
  measured_tpm_limit = pos 20000000;
  remaining_tokens_quota = pos 900;
}

abbrev small : PoolNode
small = record {
  node_id = bytes "n3";
  provider_type = bytes "openai";
  blinded_key_hash = bytes "k3";
  measured_tpm_limit = pos 100;
  remaining_tokens_quota = pos 900;
}

abbrev nodes : List PoolNode
nodes = spent ∷ large ∷ small ∷ []

abbrev pub ledger : Ledger scaled
ledger = record {
  transactions = [];
  sessions = [];
  pool_nodes = nodes;
  organizations = [];
  virtual_keys = [];
  next_transaction = 1;
  next_organization = 1;
  next_key = 1;
  redis = [];
}

abbrev pub engine : DrrEngine
engine = record {
  current_index = (bytes "openai", 1) ∷ [];
  session_usage = (bytes "peer", pos 40) ∷ [];
}

abbrev pub free_limit : ℤ
free_limit = pos 100

all_nodes : get_pool_nodes scaled true (bytes "openai") ledger ≡ ok nodes
unfolding get_pool_nodes ◌=s◌
all_nodes = refl

peer_admitted : admission scaled decrypt free_limit (some manager) (bytes "peer") engine ≡ none
unfolding admission usage_of is_untrusted_tier is_blacklisted get_tier lookup ◌=s◌
peer_admitted = refl

small-IsUsable : IsUsable scaled decrypt (some manager) (bytes "peer") small (bytes "k3")
unfolding gated is_set
small-IsUsable = record { has_quota = refl; decrypts = refl; open_gate = refl }

pub peer_routed :
    (get_next_key scaled decrypt free_limit
      (some manager)
      true
      true
      (bytes "openai")
      (bytes "peer")
      (pos 30)
      ledger
      engine).0
    ≡ routed (bytes "k3")
unfolding get_next_key with_nodes choose settle start_index hand_out get_pool_nodes ◌=s◌ admission
    usage_of index_of is_untrusted_tier is_premium_tier is_blacklisted get_tier lookup scan gated
    is_set
peer_routed = refl

get_next_key-IsServed_example :
    let out =
      get_next_key scaled decrypt free_limit
        (some manager)
        true
        true
        (bytes "openai")
        (bytes "peer")
        (pos 30)
        ledger
        engine in
    IsServed scaled decrypt free_limit
      (some manager)
      true
      true
      (bytes "openai")
      (bytes "peer")
      (pos 30)
      ledger
      engine
      (bytes "k3")
      out.1
      out.2
get_next_key-IsServed_example =
    get_next_key-IsServed scaled decrypt free_limit (some manager) true true (bytes "openai")
      (bytes "peer") (pos 30) ledger engine (bytes "k3") peer_routed

get_next_key-serves_example :
    (key : Bytes) × ((get_next_key scaled decrypt free_limit
        (some manager)
        true
        true
        (bytes "openai")
        (bytes "peer")
        (pos 30)
        ledger
        engine).0
      ≡ routed key)
get_next_key-serves_example =
    get_next_key-serves scaled decrypt free_limit (some manager) true true (bytes "openai")
      (bytes "peer") (pos 30) ledger engine nodes 2 small (bytes "k3") all_nodes peer_admitted refl
      small-IsUsable

get_next_key-denied_example :
    let out =
      get_next_key scaled decrypt
        (pos 10)
        (some manager)
        true
        true
        (bytes "openai")
        (bytes "peer")
        (pos 30)
        ledger
        engine in
    (out.0 ≢ denied out_of_range)
    × ((e : RouteError)
        → out.0 ≡ denied e
        → (out.1 ≡ ledger) × (out.2.session_usage ≡ engine.session_usage))
get_next_key-denied_example =
    get_next_key-denied scaled decrypt (pos 10) (some manager) true true (bytes "openai")
      (bytes "peer") (pos 30) ledger engine

abbrev request : Request scaled decrypt free_limit
request = record {
  ledger = ledger;
  reputation = some manager;
  run_select = true;
  run_update = true;
  provider = bytes "openai";
  session = bytes "peer";
  tokens = pos 30;
}

abbrev fresh : DrrEngine
fresh = record { current_index = []; session_usage = [] }

fresh_within : AllWithin scaled decrypt free_limit (pos 30) fresh
unfolding usage_of lookup ◌+ℤ◌
fresh_within j = omega arith

peer_named : is_set (bytes "peer") ≡ true
unfolding is_set
peer_named = refl

fresh_unused : usage_of (bytes "peer") fresh.session_usage ≡ pos 0
unfolding usage_of lookup
fresh_unused = refl

handed_out-bounded_example :
    handed_out scaled decrypt free_limit (bytes "peer") (request ∷ request ∷ request ∷ []) fresh
    ≤ℤ free_limit +ℤ pos 30
handed_out-bounded_example =
    handed_out-bounded scaled decrypt free_limit (pos 30) (bytes "peer")
      (request ∷ request ∷ request ∷ []) fresh peer_named
      ((omega arith, omega arith), ((omega arith, omega arith), ((omega arith, omega arith), tt)))
      fresh_within fresh_unused
