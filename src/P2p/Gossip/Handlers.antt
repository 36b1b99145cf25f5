-- ===== src/P2p/Gossip/Handlers.antt =====
-- What messages of the mesh can do to the reputation of a node.
use tkngate.Base.{
  ℕ, ◌≡◌, refl, ap, sym, ◌∙◌, inl, inr, Bool, List, [], ◌∷◌, ◌++◌, arith, Bool-cases, Option-cases,
}
use tkngate.Base.Bytes.{Bytes}
use tkngate.Float64.{Float64, whole, lt}
use tkngate.Mesh.Reputation.{MeshConfig, ReputationManager}
use tkngate.Mesh.Reputation.Trust.{
  Event, create_node, success, decay_tick, slash_node, boost_node, fraud, step, run_events,
}
use tkngate.Mesh.Reputation.Trust.Range.{IsSane, BoostsNonneg, AllInRange, run_events-AllInRange}
use tkngate.P2p.Gossip.{
  ReputationUpdate, Message, Network, read_update, read_alert, clamp, slash_reason, apply_update,
  handle_reputation_message, handle_fraud_message,
}

-- A message that one of the two handlers takes.
pub data Gossip : Type 0 where
  reputation_message : Bool → ℕ → Message → Gossip
  fraud_message : Bool → Bool → ℕ → Message → Gossip

module _ (F : Float64) (N : Network F) (cfg : MeshConfig F) (own : Bytes) where
  unfoldable pub receive : ReputationManager F → Gossip → ReputationManager F
  receive m (reputation_message run now msg) = handle_reputation_message F N cfg own run now msg m
  receive m (fraud_message run run_proof now msg) =
      handle_fraud_message F N cfg own run run_proof now msg m

  unfoldable pub run_gossip : ReputationManager F → List Gossip → ReputationManager F
  unfolding receive
  run_gossip m [] = m
  run_gossip m (g ∷ gs) = run_gossip (receive m g) gs

  -- The calls that a run of the handlers makes.
  pub record IsRun (m m' : ReputationManager F) : Type 0 where
    pub calls : List (Event F)
    pub leads : m' ≡ run_events F cfg m calls
    pub boosts : BoostsNonneg F cfg calls

  run_events-append :
      (m : ReputationManager F) (es fs : List (Event F))
      → run_events F cfg m (es ++ fs) ≡ run_events F cfg (run_events F cfg m es) fs
  unfolding run_events
  run_events-append m [] fs = refl
  run_events-append m (e ∷ es) fs = run_events-append (step F cfg m e) es fs

  BoostsNonneg-append :
      (es fs : List (Event F))
      → BoostsNonneg F cfg es
      → BoostsNonneg F cfg fs
      → BoostsNonneg F cfg (es ++ fs)
  BoostsNonneg-append [] fs a b = b
  BoostsNonneg-append (boost_node run id amount ∷ es) fs a b =
      (a.0, BoostsNonneg-append es fs a.1 b)
  BoostsNonneg-append (create_node run now id ∷ es) fs a b = BoostsNonneg-append es fs a b
  BoostsNonneg-append (success run now id ∷ es) fs a b = BoostsNonneg-append es fs a b
  BoostsNonneg-append (slash_node run now id reason ∷ es) fs a b = BoostsNonneg-append es fs a b
  BoostsNonneg-append (decay_tick run now ∷ es) fs a b = BoostsNonneg-append es fs a b
  BoostsNonneg-append (fraud run run_proof now o v x ∷ es) fs a b = BoostsNonneg-append es fs a b

  IsRun-refl : (m : ReputationManager F) → IsRun m m
  unfolding run_events
  IsRun-refl m = record { calls = []; leads = refl; boosts = tt }

  IsRun-trans : (m m' m'' : ReputationManager F) → IsRun m m' → IsRun m' m'' → IsRun m m''
  IsRun-trans m m' m'' a b = record {
    calls = a.calls ++ b.calls;
    leads =
        b.leads
        ∙ (ap (λ x. run_events F cfg x b.calls) a.leads
            ∙ sym (run_events-append m a.calls b.calls));
    boosts = BoostsNonneg-append a.calls b.calls a.boosts b.boosts;
  }

  apply_update-IsRun :
      (run : Bool) (now : ℕ) (u : ReputationUpdate F) (m : ReputationManager F)
      → IsRun m (apply_update F N cfg run now u m)
  unfolding apply_update run_events step
  apply_update-IsRun run now u m =
      let c = clamp F N u.trust_score_change in
      elim (Bool-cases (lt F c (whole F 0))) [
        | inl down ↦ record {
          calls = slash_node run now u.subject_node_id (slash_reason F N u) ∷ [];
          leads = rw (down, apply_update) refl;
          boosts = tt;
        }
        | inr not_down ↦ elim (Bool-cases (lt F (whole F 0) c)) [
          | inl up ↦ record {
            calls = boost_node run u.subject_node_id c ∷ [];
            leads = rw (not_down, apply_update) (rw up refl);
            boosts = (ground (arith, F.le_total (whole F 0) c), tt);
          }
          | inr level ↦ rw (not_down, apply_update) (rw level (IsRun-refl m))
        ]
      ]

  receive-IsRun : (g : Gossip) (m : ReputationManager F) → IsRun m (receive m g)
  unfolding receive handle_reputation_message handle_fraud_message run_events step
  receive-IsRun (reputation_message run now msg) m =
      elim (Option-cases (read_update F N own now msg)) [
        | inl e ↦ rw (e, handle_reputation_message) (IsRun-refl m)
        | inr (u, e) ↦ rw (e, handle_reputation_message) (apply_update-IsRun run now u m)
      ]
  receive-IsRun (fraud_message run run_proof now msg) m =
      elim (Option-cases (read_alert F N own msg)) [
        | inl e ↦ rw (e, handle_fraud_message) (IsRun-refl m)
        | inr (a, e) ↦
            rw (e, handle_fraud_message)
              record {
                calls =
                    fraud run run_proof now a.offender_node_id a.victim_node_id a.evidence_hash
                    ∷ [];
                leads = refl;
                boosts = tt;
              }
      ]

  run_gossip-IsRun : (gs : List Gossip) (m : ReputationManager F) → IsRun m (run_gossip m gs)
  unfolding run_gossip
  run_gossip-IsRun [] m = IsRun-refl m
  run_gossip-IsRun (g ∷ gs) m =
      IsRun-trans m (receive m g) (run_gossip (receive m g) gs) (receive-IsRun g m)
        (run_gossip-IsRun gs (receive m g))

  -- Whatever messages come from the mesh, the scores stay between 0 and 100, under a sane
  -- configuration.
  pub run_gossip-AllInRange :
      (gs : List Gossip) (m : ReputationManager F)
      → IsSane F cfg
      → AllInRange F cfg m
      → AllInRange F cfg (run_gossip m gs)
  run_gossip-AllInRange gs m sane h =
      let r = run_gossip-IsRun gs m in
      rw r.leads (run_events-AllInRange F cfg sane r.calls m r.boosts h)
