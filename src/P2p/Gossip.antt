-- ===== src/P2p/Gossip.antt =====
-- internal/p2p/gossip.go and messages.go: reputation updates and fraud alerts over GossipSub. One
-- round of a handler's loop is one function on a message. libp2p and the standard library are
-- parameters: the peers' public keys, the check of a signature, signing, the JSON codec, and the
-- text that is signed, which `fmt.Sprintf` makes of the fields.
pub mod Handlers
pub mod Broadcast
use tkngate.Base.{
  ℕ, Bool, true, false, not, Option, none, some, ◌>>=◌, List, [], ◌∷◌, ◌++◌, if◌then◌else◌,
}
use tkngate.Base.Int.{ℤ, pos, ◌-ℤ◌, ltb_ℤ, wrap64}
use tkngate.Base.Bytes.{Bytes, bytes, ◌=s◌}
use tkngate.Float64.{Float64, whole, lt}
use tkngate.Mesh.Reputation.{MeshConfig, ReputationManager, slash, boost, submit_fraud_proof}

pub record ReputationUpdate (F : Float64) : Type 0 where
  pub subject_node_id : Bytes
  pub reporter_node_id : Bytes
  pub trust_score_change : F.Float
  pub reason : Bytes
  pub timestamp : ℤ
  pub signature : Bytes

pub record FraudAlert : Type 0 where
  pub offender_node_id : Bytes
  pub victim_node_id : Bytes
  pub evidence_hash : Bytes
  pub reported_at : ℤ
  pub signature : Bytes

-- A message of GossipSub: `received_from` is the peer that passed it on, `from` the one that made it.
pub record Message : Type 0 where
  pub received_from : Bytes
  pub from : Bytes
  pub msg_data : Bytes

-- What the handlers call.
pub record Network (F : Float64) : Type 1 where
  pub Key : Type 0
  pub extract_key : Bytes → Option Key
  pub verify : Key → Bytes → Bytes → Bool
  pub sign : Bytes → Option Bytes
  pub update_text : Bytes → Bytes → F.Float → Bytes → ℤ → Bytes
  pub alert_text : Bytes → Bytes → Bytes → ℤ → Bytes
  pub decode_update : Bytes → Option (ReputationUpdate F)
  pub decode_alert : Bytes → Option FraudAlert
  pub encode_update : ReputationUpdate F → Option Bytes

module _ (F : Float64) (N : Network F) where
  unfoldable pub text_of : ReputationUpdate F → Bytes
  text_of u =
      N.update_text u.subject_node_id u.reporter_node_id u.trust_score_change u.reason u.timestamp

  -- The signature, the reporter and the age of an update, in this order. The age is an int64, which
  -- wraps.
  unfoldable pub check_update :
      ℕ → Message → N.Key → ReputationUpdate F → Option (ReputationUpdate F)
  unfolding text_of
  check_update now msg key u =
      if not (N.verify key (text_of u) u.signature)
      then none
      else if not (u.reporter_node_id =s msg.received_from)
      then none
      else if ltb_ℤ (pos 300) (wrap64 (pos now -ℤ u.timestamp))
      then none
      else some u

  -- The tests of `handleReputationMessages`: what a message that passes them says.
  unfoldable pub read_update : Bytes → ℕ → Message → Option (ReputationUpdate F)
  unfolding check_update
  read_update own now msg = if msg.received_from =s own then none else do
    u ← N.decode_update msg.msg_data
    key ← N.extract_key msg.from
    check_update now msg key u

  minus_five : F.Float
  minus_five = F.sub (whole F 0) (whole F 5)

  -- The change, between -5 and 5.
  unfoldable pub clamp : F.Float → F.Float
  unfolding minus_five
  clamp change =
      if lt F change minus_five
      then minus_five
      else if lt F (whole F 5) change
      then whole F 5
      else change

  unfoldable pub slash_reason : ReputationUpdate F → Bytes
  slash_reason u = bytes "P2P Slash from " ++ u.reporter_node_id ++ bytes ": " ++ u.reason

  unfoldable pub apply_update :
      MeshConfig F → Bool → ℕ → ReputationUpdate F → ReputationManager F → ReputationManager F
  unfolding slash_reason clamp
  apply_update cfg run now u m =
      let change = clamp u.trust_score_change in
      if lt F change (whole F 0)
      then (slash F cfg run now u.subject_node_id (slash_reason u) m).1
      else if lt F (whole F 0) change
      then boost F cfg run u.subject_node_id change m
      else m

  unfoldable pub handle_reputation_message :
      MeshConfig F → Bytes → Bool → ℕ → Message → ReputationManager F → ReputationManager F
  unfolding apply_update read_update
  handle_reputation_message cfg own run now msg m = elim (read_update own now msg) [
    | none ↦ m
    | some u ↦ apply_update cfg run now u m
  ]

  check_alert : N.Key → FraudAlert → Option FraudAlert
  check_alert key a =
      if N.verify key
        (N.alert_text a.offender_node_id a.victim_node_id a.evidence_hash a.reported_at) a.signature
      then some a
      else none

  pub read_alert : Bytes → Message → Option FraudAlert
  unfolding check_alert
  read_alert own msg =
      if msg.received_from =s own
      then none
      else do a ← N.decode_alert msg.msg_data; key ← N.extract_key msg.from; check_alert key a

  unfoldable pub handle_fraud_message :
      MeshConfig F → Bytes → Bool → Bool → ℕ → Message → ReputationManager F → ReputationManager F
  unfolding read_alert
  handle_fraud_message cfg own run run_proof now msg m = elim (read_alert own msg) [
    | none ↦ m
    | some a ↦
        (submit_fraud_proof F cfg run run_proof now a.offender_node_id a.victim_node_id
          a.evidence_hash m).1
  ]

  -- What `BroadcastReputationUpdate` publishes for a change, by the node `own`.
  unfoldable pub broadcast_update : Bytes → ℕ → Bytes → F.Float → Bytes → Option Bytes
  broadcast_update own now subject change reason = do
    signature ← N.sign (N.update_text subject own change reason (pos now))
    N.encode_update record {
      subject_node_id = subject;
      reporter_node_id = own;
      trust_score_change = change;
      reason = reason;
      timestamp = pos now;
      signature = signature;
    }
