-- ===== src/Mesh/Reputation/Trust/Blacklist.antt =====
-- A blacklisted node stays blacklisted, and without access.
use tkngate.Base.{
  ℕ, ◌+◌, ◌≡◌, refl, ◌∙◌, inl, inr, Bool, true, false, not, ◌&&◌, none, some, List, [], ◌∷◌,
  if◌then◌else◌, arith, Bool-cases, Option-cases, ltb,
}
use tkngate.Base.Bytes.{Bytes, ◌=s◌, =s_iff, =s_refl}
use tkngate.Base.Maps.{Map, lookup, insert, lookup-insert}
use tkngate.Float64.{Float64, whole, lt}
use tkngate.Mesh.Reputation.{
  untrusted, MeshConfig, NodeReputation, ReputationManager, compute_tier, rewarded, slashed,
  boosted, decayed, get_or_create, slash, boost, decay, decay_all, decay_one, is_blacklisted,
  get_tier,
}
use tkngate.Mesh.Reputation.Trust.{
  Event, create_node, success, slash_node, boost_node, decay_tick, fraud, step, run_events,
  replaced, record_success-nodes, slash-nodes, boost-nodes, decay_one-nodes, get_or_create-nodes,
  submit_fraud_proof-nodes,
}

module _ (F : Float64) (cfg : MeshConfig F) where
  -- Banned: known, blacklisted, and at the lowest tier.
  abbrev pub IsBanned : Bytes → Map (NodeReputation F) → Type 0
  IsBanned id nodes =
      (rep : NodeReputation F) × (lookup id nodes ≡ some rep)
      × (rep.blacklisted ≡ true)
      × (rep.tier ≡ untrusted)

  -- A write to a node that keeps a banned one banned.
  insert-IsBanned :
      (id j : Bytes) (rep' : NodeReputation F) (nodes : Map (NodeReputation F))
      → ((id =s j) ≡ true → (rep'.blacklisted ≡ true) × (rep'.tier ≡ untrusted))
      → IsBanned j nodes
      → IsBanned j (insert id rep' nodes)
  insert-IsBanned id j rep' nodes keep (rep, found, listed, low) = elim (Bool-cases (id =s j)) [
    | inl same ↦ (rep', lookup-insert id j rep' nodes ∙ rw same, (keep same).0, (keep same).1)
    | inr other ↦ (rep, lookup-insert id j rep' nodes ∙ rw other found, listed, low)
  ]

  -- What a banned node is found as is banned.
  found_banned :
      (id j : Bytes) (r : NodeReputation F) (nodes : Map (NodeReputation F))
      → IsBanned j nodes
      → lookup id nodes ≡ some r
      → (id =s j) ≡ true
      → r.blacklisted ≡ true
  found_banned id j r nodes b e same = ground (arith, =s_iff id j)

  replaced-IsBanned :
      (f : NodeReputation F → NodeReputation F) (id j : Bytes) (nodes : Map (NodeReputation F))
      → ((rep : NodeReputation F)
          → rep.blacklisted ≡ true
          → ((f rep).blacklisted ≡ true) × ((f rep).tier ≡ untrusted))
      → IsBanned j nodes
      → IsBanned j (replaced F id f nodes)
  replaced-IsBanned f id j nodes keep b = elim (Option-cases (lookup id nodes)) [
    | inl e ↦ rw (e, replaced) b
    | inr (r, e) ↦
        rw (e, replaced)
          (insert-IsBanned id j (f r) nodes (λ same. keep r (found_banned id j r nodes b e same)) b)
  ]

  rewarded-stays :
      (now : ℕ) (rep : NodeReputation F)
      → rep.blacklisted ≡ true
      → ((rewarded F cfg now rep).blacklisted ≡ true) × ((rewarded F cfg now rep).tier ≡ untrusted)
  unfolding rewarded compute_tier
  rewarded-stays now rep h = ground arith

  slashed-stays :
      (now : ℕ) (rep : NodeReputation F)
      → rep.blacklisted ≡ true
      → ((slashed F cfg now rep).blacklisted ≡ true) × ((slashed F cfg now rep).tier ≡ untrusted)
  unfolding slashed compute_tier
  slashed-stays now rep h = ground arith

  decay_one-IsBanned :
      (run : Bool) (now : ℕ) (id j : Bytes) (m : ReputationManager F)
      → IsBanned j m.nodes
      → IsBanned j (decay_one F cfg run now id m).nodes
  decay_one-IsBanned run now id j m b =
      rw (decay_one-nodes F cfg run m now id) (elim (Option-cases (lookup id m.nodes)) [
        | inl e ↦ rw e b
        | inr (r, e) ↦ rw e (
            go r e
              (ltb (r.last_activity + 86400) now
                && (lt F (whole F 0) r.trust_score && not r.blacklisted))
              refl)
      ])
    where
      go :
          (r : NodeReputation F)
          → lookup id m.nodes ≡ some r
          → (t : Bool)
          → (ltb (r.last_activity + 86400) now
              && (lt F (whole F 0) r.trust_score && not r.blacklisted))
            ≡ t
          → IsBanned j (if t then insert id (decayed F cfg r) m.nodes else m.nodes)
      go r e false h = b
      go r e true h =
          insert-IsBanned id j (decayed F cfg r) m.nodes
            (λ same. let listed = found_banned id j r m.nodes b e same in absurd (ground arith)) b

  decay_all-IsBanned :
      (run : Bool) (now : ℕ) (j : Bytes) (rest : Map (NodeReputation F)) (m : ReputationManager F)
      → IsBanned j m.nodes
      → IsBanned j (decay_all F cfg run now rest m).nodes
  unfolding decay_all
  decay_all-IsBanned run now j [] m b = b
  decay_all-IsBanned run now j ((id, rep) ∷ rest) m b =
      decay_all-IsBanned run now j rest (decay_one F cfg run now id m)
        (decay_one-IsBanned run now id j m b)

  boost-IsBanned :
      (run : Bool) (id j : Bytes) (amount : F.Float) (m : ReputationManager F)
      → IsBanned j m.nodes
      → IsBanned j (boost F cfg run id amount m).nodes
  boost-IsBanned run id j amount m b =
      rw (boost-nodes F cfg run m id amount) (elim (Option-cases (lookup id m.nodes)) [
        | inl e ↦ rw e b
        | inr (r, e) ↦ rw e (go r e r.blacklisted refl)
      ])
    where
      go :
          (r : NodeReputation F)
          → lookup id m.nodes ≡ some r
          → (t : Bool) → r.blacklisted ≡ t
          → IsBanned j (if t then m.nodes else insert id (boosted F cfg amount r) m.nodes)
      go r e true h = b
      go r e false h =
          insert-IsBanned id j (boosted F cfg amount r) m.nodes
            (λ same. let listed = found_banned id j r m.nodes b e same in absurd (ground arith)) b

  get_or_create-IsBanned :
      (run : Bool) (now : ℕ) (id j : Bytes) (m : ReputationManager F)
      → IsBanned j m.nodes
      → IsBanned j (get_or_create F cfg run now id m).nodes
  get_or_create-IsBanned run now id j m b =
      rw (get_or_create-nodes F cfg run m now id) (elim (Option-cases (lookup id m.nodes)) [
        | inl e ↦ rw e (insert-IsBanned id j _ m.nodes (λ same. absurd (fresh e same)) b)
        | inr (r, e) ↦ rw e b
      ])
    where
      fresh : lookup id m.nodes ≡ none → (id =s j) ≡ true → ⊥
      fresh e same = ground (arith, =s_iff id j)

  step-IsBanned :
      (m : ReputationManager F) (e : Event F) (j : Bytes)
      → IsBanned j m.nodes
      → IsBanned j (step F cfg m e).nodes
  unfolding step decay
  step-IsBanned m (create_node run now id) j b = get_or_create-IsBanned run now id j m b
  step-IsBanned m (success run now id) j b =
      rw (record_success-nodes F cfg run m now id)
        (replaced-IsBanned (rewarded F cfg now) id j m.nodes (rewarded-stays now) b)
  step-IsBanned m (slash_node run now id reason) j b =
      rw (slash-nodes F cfg run m now id reason)
        (replaced-IsBanned (slashed F cfg now) id j m.nodes (slashed-stays now) b)
  step-IsBanned m (boost_node run id amount) j b = boost-IsBanned run id j amount m b
  step-IsBanned m (decay_tick run now) j b = decay_all-IsBanned run now j m.nodes m b
  step-IsBanned m (fraud run run_proof now offender victim evidence) j b =
      rw (submit_fraud_proof-nodes F cfg run m run_proof now offender victim evidence)
        (elim cfg.reputation_enabled
          as (λ t.
            IsBanned j (if t then replaced F offender (slashed F cfg now) m.nodes else m.nodes)) [
              | true ↦
                  replaced-IsBanned (slashed F cfg now) offender j m.nodes (slashed-stays now) b
              | false ↦ b
            ])

  run_events-IsBanned :
      (es : List (Event F)) (m : ReputationManager F) (j : Bytes)
      → IsBanned j m.nodes
      → IsBanned j (run_events F cfg m es).nodes
  unfolding run_events
  run_events-IsBanned [] m j b = b
  run_events-IsBanned (e ∷ es) m j b =
      run_events-IsBanned es (step F cfg m e) j (step-IsBanned m e j b)

  slashed-banned :
      (now : ℕ) (rep : NodeReputation F)
      → (slashed F cfg now rep).blacklisted ≡ true
      → (slashed F cfg now rep).tier ≡ untrusted
  unfolding slashed compute_tier
  slashed-banned now rep h = ground arith

  -- A slash that answers true has banned its node.
  slash-IsBanned :
      (run : Bool) (now : ℕ) (id reason : Bytes) (m : ReputationManager F)
      → (slash F cfg run now id reason m).0 ≡ true
      → IsBanned id (slash F cfg run now id reason m).1.nodes
  unfolding slash
  slash-IsBanned run now id reason m h = elim (Option-cases (lookup id m.nodes)) [
    | inl e ↦ absurd (ground arith)
    | inr (r, e) ↦
        let listed : (slashed F cfg now r).blacklisted ≡ true = ground arith in
        rw (slash-nodes F cfg run m now id reason) (
          rw (e, replaced)
            (
              slashed F cfg now r,
              lookup-insert id id (slashed F cfg now r) m.nodes ∙ rw (=s_refl id),
              listed,
              slashed-banned now r listed,
            ))
  ]

  -- Once `Slash` has answered that a node is blacklisted, the node is reported as blacklisted and
  -- untrusted after any sequence of calls: no success, boost, decay, fraud report or registration
  -- gives it access again.
  pub blacklist_permanent :
      (run : Bool) (now : ℕ) (id reason : Bytes) (m : ReputationManager F) (es : List (Event F))
      → (slash F cfg run now id reason m).0 ≡ true
      → let m' = run_events F cfg (slash F cfg run now id reason m).1 es in
        (is_blacklisted F id m' ≡ true) × (get_tier F id m' ≡ untrusted)
  unfolding is_blacklisted get_tier
  blacklist_permanent run now id reason m es h =
      let (rep, found, listed, low) =
        run_events-IsBanned es (slash F cfg run now id reason m).1 id
          (slash-IsBanned run now id reason m h) in
      (rw (found, is_blacklisted) listed, rw (found, get_tier) low)
