-- ===== src/Mesh/Reputation/Trust/Slashing.antt =====
-- What one `Slash` does to its node, and whom it tells.
use tkngate.Base.{ℕ, suc, ◌≡◌, ◌∙◌, refl, Bool, true, some, [], ◌∷◌, ◌++◌, if◌then◌else◌, arith}
use tkngate.Base.Bytes.{Bytes, =s_refl}
use tkngate.Base.Maps.{lookup, lookup-insert}
use tkngate.Float64.{Float64, whole}
use tkngate.Mesh.Reputation.{
  MeshConfig, NodeReputation, ReputationManager, slashed, slash, notify, store_slash, put_node,
  update_row,
}
use tkngate.Mesh.Reputation.Trust.{replaced, slash-nodes}

module _ (F : Float64) (cfg : MeshConfig F) where
  pub score_after_slash : F.Float → F.Float
  score_after_slash score =
      let less = F.sub score cfg.slash_penalty in
      if F.le less cfg.blacklist_threshold then whole F 0 else less

  -- A slashed node: the whole penalty is taken, and the listener is told.
  pub record IsSlashed (id reason : Bytes) (rep : NodeReputation F) (m m' : ReputationManager F)
      : Type 0 where
    pub after : NodeReputation F
    pub found : lookup id m'.nodes ≡ some after
    pub score : after.trust_score ≡ score_after_slash rep.trust_score
    pub violations : after.violations ≡ suc rep.violations
    pub told :
        m'.changes
        ≡ m.changes
          ++ record { node_id = id; change = F.sub (whole F 0) cfg.slash_penalty; reason = reason }
            ∷ []

  slashed_score :
      (now : ℕ) (rep : NodeReputation F)
      → ((slashed F cfg now rep).trust_score ≡ score_after_slash rep.trust_score)
        × ((slashed F cfg now rep).violations ≡ suc rep.violations)
  unfolding slashed score_after_slash
  slashed_score now rep = (ground arith, ground arith)

  slash_changes :
      (run : Bool) (now : ℕ) (id reason : Bytes) (m : ReputationManager F) (rep : NodeReputation F)
      → lookup id m.nodes ≡ some rep
      → m.listening ≡ true
      → (slash F cfg run now id reason m).1.changes
        ≡ m.changes
          ++ record { node_id = id; change = F.sub (whole F 0) cfg.slash_penalty; reason = reason }
            ∷ []
  unfolding slash store_slash notify put_node update_row
  slash_changes run now id reason m rep known listening = ground arith

  pub slash-IsSlashed :
      (run : Bool) (now : ℕ) (id reason : Bytes) (m : ReputationManager F) (rep : NodeReputation F)
      → lookup id m.nodes ≡ some rep
      → m.listening ≡ true
      → IsSlashed id reason rep m (slash F cfg run now id reason m).1
  slash-IsSlashed run now id reason m rep known listening = record {
    after = slashed F cfg now rep;
    found = rw (slash-nodes F cfg run m now id reason) (
        rw (known, replaced)
          (lookup-insert id id (slashed F cfg now rep) m.nodes ∙ rw (=s_refl id) refl));
    score = (slashed_score now rep).0;
    violations = (slashed_score now rep).1;
    told = slash_changes run now id reason m rep known listening;
  }
