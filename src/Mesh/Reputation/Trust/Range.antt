-- ===== src/Mesh/Reputation/Trust/Range.antt =====
-- Every trust score stays between 0 and 100.
use tkngate.Base.{
  ℕ, ◌≡◌, inl, inr, Bool, true, false, List, [], ◌∷◌, if◌then◌else◌, arith, All, Option-cases,
}
use tkngate.Base.Bytes.{Bytes}
use tkngate.Base.Maps.{Map, lookup, insert, All-insert, lookup-All}
use tkngate.Float64.{Float64, whole}
use tkngate.Mesh.Reputation.{
  MeshConfig, NodeReputation, ReputationManager, cap, rewarded, slashed, boosted, decayed,
  get_or_create, record_success, slash, boost, decay, decay_all, decay_one, submit_fraud_proof,
}
use tkngate.Mesh.Reputation.Trust.{
  Event, create_node, success, slash_node, boost_node, decay_tick, fraud, step, run_events,
  replaced, record_success-nodes, slash-nodes, boost-nodes, decay_one-nodes, get_or_create-nodes,
  submit_fraud_proof-nodes,
}

-- A configuration whose scores make sense.
pub record IsSane (F : Float64) (cfg : MeshConfig F) : Type 0 where
  pub threshold_nonneg : F.le (whole F 0) cfg.blacklist_threshold ≡ true
  pub initial_nonneg : F.le (whole F 0) cfg.initial_trust_score ≡ true
  pub initial_le : F.le cfg.initial_trust_score (whole F 100) ≡ true
  pub penalty_nonneg : F.le (whole F 0) cfg.slash_penalty ≡ true

module _ (F : Float64) (cfg : MeshConfig F) where
  pub record InRange (rep : NodeReputation F) : Type 0 where
    pub from_zero : F.le (whole F 0) rep.trust_score ≡ true
    pub to_hundred : F.le rep.trust_score (whole F 100) ≡ true

  -- The gossip handler only boosts by amounts above 0.
  abbrev pub BoostsNonneg : List (Event F) → Type 0
  BoostsNonneg [] = Unit
  BoostsNonneg (boost_node run id amount ∷ es) = (F.le (whole F 0) amount ≡ true) × BoostsNonneg es
  BoostsNonneg (e ∷ es) = BoostsNonneg es

  abbrev pub AllInRange : ReputationManager F → Type 0
  AllInRange m = All (λ e. InRange e.1) m.nodes

  hundred_pos : F.le (whole F 0) (whole F 100) ≡ true
  hundred_pos = F.lit_mono 0 100 1 (omega arith)

  cap_range :
      (x : F.Float)
      → F.le (whole F 0) x ≡ true
      → (F.le (whole F 0) (cap F x) ≡ true) × (F.le (cap F x) (whole F 100) ≡ true)
  unfolding cap
  cap_range x h = ground (arith, hundred_pos, F.le_refl (whole F 100))

  add_nonneg :
      (a b : F.Float)
      → F.le (whole F 0) a ≡ true
      → F.le (whole F 0) b ≡ true
      → F.le (whole F 0) (F.add a b) ≡ true
  add_nonneg a b ha hb = F.le_trans (whole F 0) a (F.add a b) ha (F.add_grows a b hb)

  rewarded-InRange :
      (now : ℕ) (rep : NodeReputation F) → InRange rep → InRange (rewarded F cfg now rep)
  unfolding rewarded
  rewarded-InRange now rep r = ground (
    arith,
    cap_range (F.add rep.trust_score (F.lit 1 10)),
    add_nonneg rep.trust_score (F.lit 1 10),
    F.lit_nonneg 1 10,
  )

  slashed-InRange :
      IsSane F cfg
      → (now : ℕ) (rep : NodeReputation F) → InRange rep
      → InRange (slashed F cfg now rep)
  unfolding slashed
  slashed-InRange sane now rep r =
      let less = F.sub rep.trust_score cfg.slash_penalty in
      ground (
        arith,
        hundred_pos,
        F.le_refl (whole F 0),
        F.le_total less cfg.blacklist_threshold,
        F.le_trans (whole F 0) cfg.blacklist_threshold less,
        F.sub_shrinks rep.trust_score cfg.slash_penalty,
        F.le_trans less rep.trust_score (whole F 100),
      )

  boosted-InRange :
      (amount : F.Float) (rep : NodeReputation F)
      → F.le (whole F 0) amount ≡ true
      → InRange rep
      → InRange (boosted F cfg amount rep)
  unfolding boosted
  boosted-InRange amount rep h r =
      ground (arith, cap_range (F.add rep.trust_score amount), add_nonneg rep.trust_score amount)

  decayed-InRange : (rep : NodeReputation F) → InRange rep → InRange (decayed F cfg rep)
  unfolding decayed
  decayed-InRange rep r =
      let less = F.sub rep.trust_score (F.lit 5 10) in
      ground (
        arith,
        hundred_pos,
        F.le_refl (whole F 0),
        F.sub_shrinks rep.trust_score (F.lit 5 10),
        F.lit_nonneg 5 10,
        F.le_trans less rep.trust_score (whole F 100),
      )

  module _ (sane : IsSane F cfg) where
    replaced-All :
        (f : NodeReputation F → NodeReputation F) (id : Bytes) (nodes : Map (NodeReputation F))
        → ((rep : NodeReputation F) → InRange rep → InRange (f rep))
        → All (λ e. InRange e.1) nodes
        → All (λ e. InRange e.1) (replaced F id f nodes)
    replaced-All f id nodes keep a = elim (Option-cases (lookup id nodes)) [
      | inl e ↦ rw (e, replaced) a
      | inr (r, e) ↦
          rw (e, replaced)
            (All-insert InRange id (f r) nodes (keep r (lookup-All InRange id nodes r a e)) a)
    ]

    -- A node that is found, rewritten or not by a test.
    tested-All :
        (t : Bool) (id : Bytes) (rep : NodeReputation F) (nodes : Map (NodeReputation F))
        → InRange rep
        → All (λ e. InRange e.1) nodes
        → All (λ e. InRange e.1) (if t then insert id rep nodes else nodes)
    tested-All true id rep nodes r a = All-insert InRange id rep nodes r a
    tested-All false id rep nodes r a = a

    decay_one-All :
        (run : Bool) (now : ℕ) (id : Bytes) (m : ReputationManager F)
        → AllInRange m
        → AllInRange (decay_one F cfg run now id m)
    decay_one-All run now id m a =
        rw (decay_one-nodes F cfg run m now id) (elim (Option-cases (lookup id m.nodes)) [
          | inl e ↦ rw e a
          | inr (r, e) ↦ rw e (
              tested-All _ id (decayed F cfg r) m.nodes
                (decayed-InRange r (lookup-All InRange id m.nodes r a e)) a)
        ])

    decay_all-All :
        (run : Bool) (now : ℕ) (rest : Map (NodeReputation F)) (m : ReputationManager F)
        → AllInRange m
        → AllInRange (decay_all F cfg run now rest m)
    unfolding decay_all
    decay_all-All run now [] m a = a
    decay_all-All run now ((id, rep) ∷ rest) m a =
        decay_all-All run now rest (decay_one F cfg run now id m) (decay_one-All run now id m a)

    boost-All :
        (run : Bool) (id : Bytes) (amount : F.Float) (m : ReputationManager F)
        → F.le (whole F 0) amount ≡ true
        → AllInRange m
        → AllInRange (boost F cfg run id amount m)
    boost-All run id amount m h a =
        rw (boost-nodes F cfg run m id amount) (elim (Option-cases (lookup id m.nodes)) [
          | inl e ↦ rw e a
          | inr (r, e) ↦
              rw e
                (elim r.blacklisted
                  as (λ t.
                    All (λ e. InRange e.1)
                      (if t then m.nodes else insert id (boosted F cfg amount r) m.nodes)) [
                        | true ↦ a
                        | false ↦
                            All-insert InRange id (boosted F cfg amount r) m.nodes
                              (boosted-InRange amount r h (lookup-All InRange id m.nodes r a e)) a
                      ])
        ])

    get_or_create-All :
        (run : Bool) (now : ℕ) (id : Bytes) (m : ReputationManager F)
        → AllInRange m
        → AllInRange (get_or_create F cfg run now id m)
    get_or_create-All run now id m a =
        rw (get_or_create-nodes F cfg run m now id) (elim (Option-cases (lookup id m.nodes)) [
          | inl e ↦ rw e (
              All-insert InRange id _ m.nodes
                (record { from_zero = sane.initial_nonneg; to_hundred = sane.initial_le }) a)
          | inr (r, e) ↦ rw e a
        ])

    slash-All :
        (run : Bool) (now : ℕ) (id reason : Bytes) (m : ReputationManager F)
        → AllInRange m
        → AllInRange (slash F cfg run now id reason m).1
    slash-All run now id reason m a =
        rw (slash-nodes F cfg run m now id reason)
          (replaced-All (slashed F cfg now) id m.nodes (slashed-InRange sane now) a)

    -- Under a sane configuration the scores are between 0 and 100 after any sequence of calls, if
    -- they were before it and no boost is negative.
    pub run_events-AllInRange :
        (es : List (Event F)) (m : ReputationManager F)
        → BoostsNonneg es
        → AllInRange m
        → AllInRange (run_events F cfg m es)
    unfolding run_events step decay
    run_events-AllInRange [] m h a = a
    run_events-AllInRange (create_node run now id ∷ es) m h a =
        run_events-AllInRange es (get_or_create F cfg run now id m) h
          (get_or_create-All run now id m a)
    run_events-AllInRange (success run now id ∷ es) m h a =
        run_events-AllInRange es (record_success F cfg run now id m) h (
          rw (record_success-nodes F cfg run m now id)
            (replaced-All (rewarded F cfg now) id m.nodes (rewarded-InRange now) a))
    run_events-AllInRange (slash_node run now id reason ∷ es) m h a =
        run_events-AllInRange es (slash F cfg run now id reason m).1 h
          (slash-All run now id reason m a)
    run_events-AllInRange (boost_node run id amount ∷ es) m (h, hs) a =
        run_events-AllInRange es (boost F cfg run id amount m) hs (boost-All run id amount m h a)
    run_events-AllInRange (decay_tick run now ∷ es) m h a =
        run_events-AllInRange es (decay F cfg run now m) h (decay_all-All run now m.nodes m a)
    run_events-AllInRange (fraud run run_proof now offender victim evidence ∷ es) m h a =
        run_events-AllInRange es
          (submit_fraud_proof F cfg run run_proof now offender victim evidence m).1 h
          (rw (submit_fraud_proof-nodes F cfg run m run_proof now offender victim evidence)
            (elim cfg.reputation_enabled
              as (λ t.
                All (λ e. InRange e.1)
                  (if t then replaced F offender (slashed F cfg now) m.nodes else m.nodes)) [
                    | true ↦
                        replaced-All (slashed F cfg now) offender m.nodes (slashed-InRange sane now)
                          a
                    | false ↦ a
                  ]))
