-- ===== src/Mesh/Reputation.antt =====
-- internal/mesh/reputation.go and fraud.go. A method holds the manager's lock throughout, so it is
-- one step. `run` says whether the driver executes the method's statement, whose error the source
-- ignores. A time is a number of seconds. Logging is left out.
mod Rows
pub mod Trust
use mathlib.Core.Option
use tkngate.Base.{
  ℕ, suc, ◌+◌, ◌-◌, Bool, true, false, not, ◌&&◌, ◌||◌, Option, none, some, List, [], ◌∷◌, ◌++◌,
  map, ltb, if◌then◌else◌,
}
use tkngate.Base.Bytes.{Bytes, bytes}
use tkngate.Base.Maps.{Map, lookup, insert}
use tkngate.Float64.{Float64, whole, lt}
unfoldable pub use Rows.*

abbrev fraud_reason : Bytes
fraud_reason = bytes "Fraud Proof: OpenAI Moderation Flagged Content"

module _ (F : Float64) where
  -- The node that `InitReputation` makes of a row; `reread` is what time.Parse makes of the time as
  -- the driver stored it.
  load_node : MeshConfig F → (ℕ → ℕ) → Bytes × Row F → Bytes × NodeReputation F
  load_node cfg reread (id, row) = (
    id,
    record {
      node_id = id;
      trust_score = row.trust_score;
      total_requests = row.total_requests;
      violations = row.violations;
      tier = compute_tier F cfg row.trust_score row.blacklisted;
      blacklisted = row.blacklisted;
      last_activity = reread row.last_activity;
    },
  )

  pub init_reputation : MeshConfig F → (ℕ → ℕ) → Option (Database F) → ReputationManager F
  unfolding load_node
  init_reputation cfg reread none = record {
    nodes = [];
    db = none;
    listening = false;
    changes = [];
  }
  init_reputation cfg reread (some d) = record {
    nodes = map (load_node cfg reread) d.reputations;
    db = some d;
    listening = false;
    changes = [];
  }

  -- `GetOrCreate`, without the pointer that it returns.
  create : MeshConfig F → Bool → ℕ → Bytes → ReputationManager F → ReputationManager F
  unfolding put_node insert_row
  create cfg run now id m = insert_row F run now id cfg.initial_trust_score (
      put_node F id
        (record {
          node_id = id;
          trust_score = cfg.initial_trust_score;
          total_requests = 0;
          violations = 0;
          tier = new;
          blacklisted = false;
          last_activity = now;
        })
        m)

  pub get_or_create : MeshConfig F → Bool → ℕ → Bytes → ReputationManager F → ReputationManager F
  unfolding create
  get_or_create cfg run now id m = elim (lookup id m.nodes) [
    | none ↦ create cfg run now id m
    | some rep ↦ m
  ]

  rewarded : MeshConfig F → ℕ → NodeReputation F → NodeReputation F
  unfolding cap
  rewarded cfg now rep =
      let score =
        if lt F rep.trust_score (whole F 100)
        then cap F (F.add rep.trust_score (F.lit 1 10))
        else rep.trust_score in
      record rep {
        trust_score = score;
        total_requests = suc rep.total_requests;
        tier = compute_tier F cfg score rep.blacklisted;
        last_activity = now;
      }

  store_success : Bool → Bytes → NodeReputation F → ReputationManager F → ReputationManager F
  unfolding put_node update_row notify
  store_success run id rep m = notify F id (F.lit 1 10) (bytes "Clean request") (
      update_row F run id
        (λ row. record row {
          trust_score = rep.trust_score;
          total_requests = rep.total_requests;
          last_activity = rep.last_activity;
        })
        (put_node F id rep m))

  pub record_success : MeshConfig F → Bool → ℕ → Bytes → ReputationManager F → ReputationManager F
  unfolding rewarded store_success
  record_success cfg run now id m = elim (lookup id m.nodes) [
    | none ↦ m
    | some rep ↦ store_success run id (rewarded cfg now rep) m
  ]

  slashed : MeshConfig F → ℕ → NodeReputation F → NodeReputation F
  slashed cfg now rep =
      let score = F.sub rep.trust_score cfg.slash_penalty in
      if F.le score cfg.blacklist_threshold
      then record rep {
        trust_score = whole F 0;
        violations = suc rep.violations;
        tier = untrusted;
        blacklisted = true;
        last_activity = now;
      }
      else record rep {
        trust_score = score;
        violations = suc rep.violations;
        tier = compute_tier F cfg score rep.blacklisted;
        last_activity = now;
      }

  store_slash :
      MeshConfig F
      → Bool
      → Bytes
      → Bytes
      → NodeReputation F
      → ReputationManager F
      → ReputationManager F
  unfolding put_node update_row notify
  store_slash cfg run id reason rep m = notify F id (F.sub (whole F 0) cfg.slash_penalty) reason (
      update_row F run id
        (λ row. record row {
          trust_score = rep.trust_score;
          violations = rep.violations;
          blacklisted = rep.blacklisted;
          last_activity = rep.last_activity;
        })
        (put_node F id rep m))

  -- `Slash` returns whether the node is now blacklisted.
  unfoldable pub slash :
      MeshConfig F → Bool → ℕ → Bytes → Bytes → ReputationManager F → Bool × ReputationManager F
  unfolding slashed store_slash
  slash cfg run now id reason m = elim (lookup id m.nodes) [
    | none ↦ (false, m)
    | some rep ↦
        let rep' = slashed cfg now rep in (rep'.blacklisted, store_slash cfg run id reason rep' m)
  ]

  boosted : MeshConfig F → F.Float → NodeReputation F → NodeReputation F
  unfolding cap
  boosted cfg amount rep =
      let score = cap F (F.add rep.trust_score amount) in
      record rep { trust_score = score; tier = compute_tier F cfg score rep.blacklisted }

  store_score : Bool → Bytes → NodeReputation F → ReputationManager F → ReputationManager F
  unfolding put_node update_row
  store_score run id rep m =
      update_row F run id (λ row. record row { trust_score = rep.trust_score })
        (put_node F id rep m)

  pub boost : MeshConfig F → Bool → Bytes → F.Float → ReputationManager F → ReputationManager F
  unfolding boosted store_score
  boost cfg run id amount m = elim (lookup id m.nodes) [
    | none ↦ m
    | some rep ↦ if rep.blacklisted then m else store_score run id (boosted cfg amount rep) m
  ]

  decayed : MeshConfig F → NodeReputation F → NodeReputation F
  decayed cfg rep =
      let less = F.sub rep.trust_score (F.lit 5 10) in
      let score = if lt F less (whole F 0) then whole F 0 else less in
      record rep { trust_score = score; tier = compute_tier F cfg score rep.blacklisted }

  store_decay : Bool → Bytes → NodeReputation F → ReputationManager F → ReputationManager F
  unfolding put_node update_row
  store_decay run id rep m =
      update_row F run id
        (λ row. record row { trust_score = rep.trust_score; last_activity = rep.last_activity })
        (put_node F id rep m)

  -- The body of the loop over the nodes, on a node that has been idle for more than a day.
  decay_one : MeshConfig F → Bool → ℕ → Bytes → ReputationManager F → ReputationManager F
  unfolding decayed store_decay
  decay_one cfg run now id m = elim (lookup id m.nodes) [
    | none ↦ m
    | some rep ↦
        if ltb (rep.last_activity + 86400) now
          && (lt F (whole F 0) rep.trust_score && not rep.blacklisted)
        then store_decay run id (decayed cfg rep) m
        else m
  ]

  decay_all :
      MeshConfig F → Bool → ℕ → Map (NodeReputation F) → ReputationManager F → ReputationManager F
  unfolding decay_one
  decay_all cfg run now [] m = m
  decay_all cfg run now ((id, rep) ∷ rest) m =
      decay_all cfg run now rest (decay_one cfg run now id m)

  -- One tick of `StartDecayLoop`.
  pub decay : MeshConfig F → Bool → ℕ → ReputationManager F → ReputationManager F
  unfolding decay_all
  decay cfg run now m = decay_all cfg run now m.nodes m

  unfoldable pub is_blacklisted : Bytes → ReputationManager F → Bool
  is_blacklisted id m = elim (lookup id m.nodes) [ none ↦ false | some rep ↦ rep.blacklisted ]

  unfoldable pub get_tier : Bytes → ReputationManager F → TrustTier
  get_tier id m = elim (lookup id m.nodes) [ none ↦ new | some rep ↦ rep.tier ]

  -- fraud.go: an offender is slashed and the proof kept; whether the row is stored is only logged.
  store_proof :
      MeshConfig F → Bool → Bytes → Bytes → Bytes → ReputationManager F → ReputationManager F
  store_proof cfg run offender victim evidence m =
      if run
      then record m {
        db =
            Option.map
              (λ (d : Database F). record d {
                proofs =
                    d.proofs
                    ++ record {
                      offender_node_id = offender;
                      victim_node_id = victim;
                      evidence = evidence;
                      slash_amount = cfg.slash_penalty;
                    }
                      ∷ [];
              })
              m.db;
      }
      else m

  pub data Submission : Type 0 where
    disabled accepted : Submission

  pub submit_fraud_proof :
      MeshConfig F
      → Bool
      → Bool
      → ℕ
      → Bytes
      → Bytes
      → Bytes
      → ReputationManager F
      → Submission × ReputationManager F
  unfolding store_proof
  submit_fraud_proof cfg run run_proof now offender victim evidence m =
      if cfg.reputation_enabled
      then (
        accepted,
        store_proof cfg run_proof offender victim evidence
            (slash cfg run now offender fraud_reason m).1,
      )
      else (disabled, m)
