-- ===== src/Mesh/Reputation/Trust.antt =====
-- The trust scores stay in range, and a blacklisted node has no access.
pub mod Blacklist
pub mod Range
pub mod Slashing
use tkngate.Base.{
  ℕ, suc, ◌+◌, ◌≡◌, refl, ◌⊎◌, inl, inr, Bool, true, false, not, ◌&&◌, ◌||◌, Option, none, some,
  List, [], ◌∷◌, if◌then◌else◌, arith, All, Bool-cases, Option-cases, ltb, map,
}
use tkngate.Base.Bytes.{Bytes, ◌=s◌, =s_iff}
use tkngate.Base.Maps.{Map, lookup, insert, lookup-insert, All-insert, lookup-All}
use tkngate.Float64.{Float64, whole, lt}
use tkngate.Mesh.Reputation.{
  TrustTier, untrusted, new, trusted, premium, MeshConfig, NodeReputation, Row, Database,
  ReputationManager, fraud_reason, compute_tier, cap, rewarded, slashed, boosted, decayed, put_node,
  update_row, insert_row, notify, init_reputation, load_node, create, get_or_create, record_success,
  store_success, slash, store_slash, boost, store_score, decay, decay_all, decay_one, store_decay,
  is_blacklisted, get_tier, submit_fraud_proof, store_proof,
}

-- A call that changes the manager, with its arguments.
pub data Event (F : Float64) : Type 0 where
  create_node : Bool → ℕ → Bytes → Event F
  success : Bool → ℕ → Bytes → Event F
  slash_node : Bool → ℕ → Bytes → Bytes → Event F
  boost_node : Bool → Bytes → F.Float → Event F
  decay_tick : Bool → ℕ → Event F
  fraud : Bool → Bool → ℕ → Bytes → Bytes → Bytes → Event F

module _ (F : Float64) where
  module _ (cfg : MeshConfig F) where
    unfoldable pub step : ReputationManager F → Event F → ReputationManager F
    step m (create_node run now id) = get_or_create F cfg run now id m
    step m (success run now id) = record_success F cfg run now id m
    step m (slash_node run now id reason) = (slash F cfg run now id reason m).1
    step m (boost_node run id amount) = boost F cfg run id amount m
    step m (decay_tick run now) = decay F cfg run now m
    step m (fraud run run_proof now offender victim evidence) =
        (submit_fraud_proof F cfg run run_proof now offender victim evidence m).1

    unfoldable pub run_events : ReputationManager F → List (Event F) → ReputationManager F
    run_events m [] = m
    run_events m (e ∷ es) = run_events (step m e) es

  -- What each method leaves in the map of nodes.
  abbrev replaced :
      Bytes
      → (NodeReputation F → NodeReputation F)
      → Map (NodeReputation F)
      → Map (NodeReputation F)
  replaced id f nodes = elim (lookup id nodes) [ none ↦ nodes | some rep ↦ insert id (f rep) nodes ]

  module _ (cfg : MeshConfig F) (run : Bool) (m : ReputationManager F) where
    record_success-nodes :
        (now : ℕ) (id : Bytes)
        → (record_success F cfg run now id m).nodes ≡ replaced id (rewarded F cfg now) m.nodes
    unfolding record_success store_success put_node update_row notify
    record_success-nodes now id = ground arith

    slash-nodes :
        (now : ℕ) (id reason : Bytes)
        → (slash F cfg run now id reason m).1.nodes ≡ replaced id (slashed F cfg now) m.nodes
    unfolding slash store_slash put_node update_row notify
    slash-nodes now id reason = ground arith

    boost-nodes :
        (id : Bytes) (amount : F.Float)
        → (boost F cfg run id amount m).nodes ≡ (elim (lookup id m.nodes) [
          | none ↦ m.nodes
          | some rep ↦
              if rep.blacklisted then m.nodes else insert id (boosted F cfg amount rep) m.nodes
        ])
    unfolding boost store_score put_node update_row
    boost-nodes id amount = ground arith

    decay_one-nodes :
        (now : ℕ) (id : Bytes)
        → (decay_one F cfg run now id m).nodes ≡ (elim (lookup id m.nodes) [
          | none ↦ m.nodes
          | some rep ↦
              if ltb (rep.last_activity + 86400) now
                && (lt F (whole F 0) rep.trust_score && not rep.blacklisted)
              then insert id (decayed F cfg rep) m.nodes
              else m.nodes
        ])
    unfolding decay_one store_decay put_node update_row
    decay_one-nodes now id = ground arith

    get_or_create-nodes :
        (now : ℕ) (id : Bytes)
        → (get_or_create F cfg run now id m).nodes ≡ (elim (lookup id m.nodes) [
          | none ↦
              insert id
                (record {
                  node_id = id;
                  trust_score = cfg.initial_trust_score;
                  total_requests = 0;
                  violations = 0;
                  tier = new;
                  blacklisted = false;
                  last_activity = now;
                })
                m.nodes
          | some rep ↦ m.nodes
        ])
    unfolding get_or_create create insert_row put_node
    get_or_create-nodes now id = ground arith

    submit_fraud_proof-nodes :
        (run_proof : Bool) (now : ℕ) (offender victim evidence : Bytes)
        → (submit_fraud_proof F cfg run run_proof now offender victim evidence m).1.nodes ≡ (
            if cfg.reputation_enabled
            then replaced offender (slashed F cfg now) m.nodes
            else m.nodes)
    unfolding submit_fraud_proof store_proof
    submit_fraud_proof-nodes run_proof now offender victim evidence =
        ground (arith, slash-nodes now offender fraud_reason)
