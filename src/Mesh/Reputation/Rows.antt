-- ===== src/Mesh/Reputation/Rows.antt =====
-- internal/mesh/reputation.go: the data of the reputation manager, its tiers, and the writes to its
-- map and to its table.
use mathlib.Core.Option
use tkngate.Base.{ℕ, Bool, false, ◌||◌, Option, none, some, List, [], ◌∷◌, ◌++◌, if◌then◌else◌}
use tkngate.Base.Bytes.{Bytes}
use tkngate.Base.Maps.{Map, lookup, insert}
use tkngate.Float64.{Float64, whole, lt}

-- The access level of a node.
pub data TrustTier : Type 0 where
  untrusted new trusted premium : TrustTier

-- `config.Cfg.Mesh`, the part that the package reads.
pub record MeshConfig (F : Float64) : Type 0 where
  pub reputation_enabled : Bool
  pub initial_trust_score : F.Float
  pub slash_penalty : F.Float
  pub blacklist_threshold : F.Float
  pub premium_trust_minimum : F.Float

pub record NodeReputation (F : Float64) : Type 0 where
  pub node_id : Bytes
  pub trust_score : F.Float
  pub total_requests : ℕ
  pub violations : ℕ
  pub tier : TrustTier
  pub blacklisted : Bool
  pub last_activity : ℕ

-- A row of the table mesh_reputation, under its primary key.
pub record Row (F : Float64) : Type 0 where
  pub trust_score : F.Float
  pub total_requests : ℕ
  pub violations : ℕ
  pub blacklisted : Bool
  pub last_activity : ℕ

-- A row of mesh_fraud_proofs.
pub record StoredProof (F : Float64) : Type 0 where
  pub offender_node_id : Bytes
  pub victim_node_id : Bytes
  pub evidence : Bytes
  pub slash_amount : F.Float

-- A call of `OnReputationChange`: the node, by how much, and why.
pub record Change (F : Float64) : Type 0 where
  pub node_id : Bytes
  pub change : F.Float
  pub reason : Bytes

pub record Database (F : Float64) : Type 0 where
  pub reputations : Map (Row F)
  pub proofs : List (StoredProof F)

pub record ReputationManager (F : Float64) : Type 0 where
  pub nodes : Map (NodeReputation F)
  pub db : Option (Database F)
  pub listening : Bool
  pub changes : List (Change F)

module _ (F : Float64) where
  unfoldable pub compute_tier : MeshConfig F → F.Float → Bool → TrustTier
  compute_tier cfg score blacklisted =
      if blacklisted || F.le score cfg.blacklist_threshold
      then untrusted
      else if F.le cfg.premium_trust_minimum score
      then premium
      else if F.le (whole F 40) score
      then trusted
      else new

  -- Where a score above 100 is cut.
  unfoldable pub cap : F.Float → F.Float
  cap score = if lt F (whole F 100) score then whole F 100 else score

  unfoldable pub put_node : Bytes → NodeReputation F → ReputationManager F → ReputationManager F
  put_node id rep m = record m { nodes = insert id rep m.nodes }

  -- UPDATE mesh_reputation SET … WHERE node_id = ?
  unfoldable pub update_in : Bytes → (Row F → Row F) → Map (Row F) → Map (Row F)
  update_in id f rows = elim (lookup id rows) [ none ↦ rows | some row ↦ insert id (f row) rows ]

  unfoldable pub update_row :
      Bool → Bytes → (Row F → Row F) → ReputationManager F → ReputationManager F
  unfolding update_in
  update_row run id f m =
      if run
      then record m {
        db =
            Option.map (λ (d : Database F). record d { reputations = update_in id f d.reputations })
              m.db;
      }
      else m

  -- INSERT OR IGNORE INTO mesh_reputation (node_id, trust_score): the other columns take their
  -- defaults.
  unfoldable pub insert_in : ℕ → Bytes → F.Float → Map (Row F) → Map (Row F)
  insert_in now id score rows = elim (lookup id rows) [
    | none ↦
        insert id
          (record {
            trust_score = score;
            total_requests = 0;
            violations = 0;
            blacklisted = false;
            last_activity = now;
          })
          rows
    | some old ↦ rows
  ]

  unfoldable pub insert_row : Bool → ℕ → Bytes → F.Float → ReputationManager F → ReputationManager F
  unfolding insert_in
  insert_row run now id score m =
      if run
      then record m {
        db =
            Option.map
              (λ (d : Database F). record d { reputations = insert_in now id score d.reputations })
              m.db;
      }
      else m

  unfoldable pub notify : Bytes → F.Float → Bytes → ReputationManager F → ReputationManager F
  notify id change reason m =
      if m.listening
      then record m {
        changes = m.changes ++ record { node_id = id; change = change; reason = reason } ∷ [];
      }
      else m
