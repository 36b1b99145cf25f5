-- ===== src/Tests/Mesh.antt =====
-- The reputation manager on two nodes, with and without a database.
use tkngate.Base.{◌≡◌, refl, true, false, none, List, [], ◌∷◌}
use tkngate.Base.Int.{pos, ◌-ℤ◌}
use tkngate.Base.Bytes.{bytes, ◌=s◌}
use tkngate.Base.Maps.{lookup}
use tkngate.Float64.Scaled.{scaled}
use tkngate.Mesh.Reputation.{
  untrusted, trusted, MeshConfig, NodeReputation, ReputationManager, slash, is_blacklisted,
  get_tier,
}
use tkngate.Mesh.Reputation.Trust.{
  Event, create_node, success, boost_node, decay_tick, fraud, run_events,
}
use tkngate.Mesh.Reputation.Trust.Blacklist.{blacklist_permanent}
use tkngate.Mesh.Reputation.Trust.Range.{IsSane, AllInRange, run_events-AllInRange}

abbrev config : MeshConfig scaled
config = record {
  reputation_enabled = true;
  initial_trust_score = pos 50000;
  slash_penalty = pos 20000;
  blacklist_threshold = pos 10000;
  premium_trust_minimum = pos 90000;
}

config-IsSane : IsSane scaled config
config-IsSane = record {
  threshold_nonneg = refl;
  initial_nonneg = refl;
  initial_le = refl;
  penalty_nonneg = refl;
}

abbrev node : NodeReputation scaled
node = record {
  node_id = bytes "peer";
  trust_score = pos 25000;
  total_requests = 4;
  violations = 1;
  tier = trusted;
  blacklisted = false;
  last_activity = 7;
}

abbrev manager : ReputationManager scaled
manager = record { nodes = (bytes "peer", node) ∷ []; db = none; listening = true; changes = [] }

abbrev events : List (Event scaled)
events =
    success true 20 (bytes "peer")
    ∷ boost_node true (bytes "peer") (pos 5000)
    ∷ create_node true 21 (bytes "other")
    ∷ fraud true true 22 (bytes "other") (bytes "peer") (bytes "e")
    ∷ decay_tick true 100000
    ∷ []

slash_answers : (slash scaled config true 10 (bytes "peer") (bytes "jailbreak") manager).0 ≡ true
unfolding slash ◌=s◌ ◌-ℤ◌ lookup
slash_answers = refl

blacklist_permanent_example :
    let m' =
      run_events scaled config
        (slash scaled config true 10 (bytes "peer") (bytes "jailbreak") manager).1
        events in
    (is_blacklisted scaled (bytes "peer") m' ≡ true)
    × (get_tier scaled (bytes "peer") m' ≡ untrusted)
blacklist_permanent_example =
    blacklist_permanent scaled config true 10 (bytes "peer") (bytes "jailbreak") manager events
      slash_answers

run_events-AllInRange_example : AllInRange scaled config (run_events scaled config manager events)
run_events-AllInRange_example =
    run_events-AllInRange scaled config config-IsSane events manager (refl, tt)
      (record { from_zero = refl; to_hundred = refl }, tt)
