-- ===== src/Tests/P2p.antt =====
-- Gossip between two nodes, over a network whose signatures are the signer's name and the text, and
-- whose codec knows one update.
use tkngate.Base.{
  ◌≡◌, refl, ap, sym, ◌++◌, ◌&&◌, Bool, true, false, none, some, List, [], ◌∷◌, if◌then◌else◌,
  arith, ltb,
}
use tkngate.Base.Int.{ℤ, pos, negsuc, leb_ℤ, eq_of_parts, ◌-ℤ◌, wrap64}
use tkngate.Base.Bytes.{Bytes, bytes, ◌=s◌, =s_iff}
use tkngate.Base.Maps.{lookup}
use tkngate.Float64.{lt, whole}
use tkngate.Float64.Scaled.{scaled}
use tkngate.Mesh.Reputation.{trusted, MeshConfig, NodeReputation, ReputationManager}
use tkngate.Mesh.Reputation.Trust.Range.{IsSane, AllInRange}
use tkngate.Mesh.Reputation.Trust.Slashing.{IsSlashed}
use tkngate.P2p.Gossip.{
  ReputationUpdate, Message, Network, check_update, read_update, clamp, slash_reason,
  handle_reputation_message, broadcast_update, text_of,
}
use tkngate.P2p.Gossip.Handlers.{
  Gossip, reputation_message, fraud_message, run_gossip, run_gossip-AllInRange,
}
use tkngate.P2p.Gossip.Broadcast.{
  IsAccepted, read_update_iff, accepted_slash_spreads, broadcast_update-accepted,
}

abbrev text : Bytes → Bytes → ℤ → Bytes → ℤ → Bytes
text subject reporter change reason time = subject ++ reporter ++ reason

abbrev known : ReputationUpdate scaled
known = record {
  subject_node_id = bytes "c";
  reporter_node_id = bytes "b";
  trust_score_change = negsuc 9;
  reason = bytes "waf";
  timestamp = pos 1000;
  signature = bytes "b" ++ text (bytes "c") (bytes "b") (negsuc 9) (bytes "waf") (pos 1000);
}

abbrev same_int : ℤ → ℤ → Bool
same_int a b = leb_ℤ a b && leb_ℤ b a

same_update : ReputationUpdate scaled → ReputationUpdate scaled → Bool
same_update u v =
    (u.subject_node_id =s v.subject_node_id)
    && ((u.reporter_node_id =s v.reporter_node_id)
        && (same_int u.trust_score_change v.trust_score_change
            && ((u.reason =s v.reason)
                && (same_int u.timestamp v.timestamp && (u.signature =s v.signature)))))

same_update-eq : (u v : ReputationUpdate scaled) → same_update u v ≡ true → u ≡ v
unfolding same_update
same_update-eq u v e =
    let a : u.subject_node_id ≡ v.subject_node_id =
      ground (arith, =s_iff u.subject_node_id v.subject_node_id) in
    let b : u.reporter_node_id ≡ v.reporter_node_id =
      ground (arith, =s_iff u.reporter_node_id v.reporter_node_id) in
    let c : u.trust_score_change ≡ v.trust_score_change =
      ground (arith, eq_of_parts u.trust_score_change v.trust_score_change) in
    let d : u.reason ≡ v.reason = ground (arith, =s_iff u.reason v.reason) in
    let f : u.timestamp ≡ v.timestamp = ground (arith, eq_of_parts u.timestamp v.timestamp) in
    let g : u.signature ≡ v.signature = ground (arith, =s_iff u.signature v.signature) in cc

abbrev network : Network scaled
network = record {
  Key = Bytes;
  extract_key = λ id. some id;
  verify = λ key t signature. signature =s (key ++ t);
  sign = λ t. some (bytes "b" ++ t);
  update_text = text;
  alert_text = λ offender victim evidence time. offender ++ victim ++ evidence;
  decode_update = λ b. if b =s bytes "u" then some known else none;
  decode_alert = λ b. none;
  encode_update = λ u. if same_update u known then some (bytes "u") else none;
}

codec_reads :
    (u : ReputationUpdate scaled) (b : Bytes)
    → network.encode_update u ≡ some b
    → network.decode_update b ≡ some u
unfolding ◌=s◌
codec_reads u b e =
    let wrote : (same_update u known ≡ true) × (bytes "u" ≡ b) = (ground arith, ground arith) in
    rw (← wrote.1) (ap some (sym (same_update-eq u known wrote.0)))

signature_holds :
    (t signature : Bytes)
    → network.sign t ≡ some signature
    → network.verify (bytes "b") t signature ≡ true
signature_holds t signature e = ground (arith, =s_iff signature (bytes "b" ++ t))

abbrev message : Message
message = record { received_from = bytes "b"; from = bytes "b"; msg_data = bytes "u" }

abbrev config : MeshConfig scaled
config = record {
  reputation_enabled = true;
  initial_trust_score = pos 50000;
  slash_penalty = pos 20000;
  blacklist_threshold = pos 10000;
  premium_trust_minimum = pos 90000;
}

config-IsSane : IsSane scaled config
config-IsSane = record {
  threshold_nonneg = refl;
  initial_nonneg = refl;
  initial_le = refl;
  penalty_nonneg = refl;
}

abbrev node : NodeReputation scaled
node = record {
  node_id = bytes "c";
  trust_score = pos 25000;
  total_requests = 4;
  violations = 1;
  tier = trusted;
  blacklisted = false;
  last_activity = 7;
}

abbrev manager : ReputationManager scaled
manager = record { nodes = (bytes "c", node) ∷ []; db = none; listening = true; changes = [] }

abbrev gossip : List Gossip
gossip = reputation_message true 1100 message ∷ fraud_message true true 1101 message ∷ []

message_read : read_update scaled network (bytes "a") 1100 message ≡ some known
unfolding read_update check_update text_of ◌=s◌ ◌-ℤ◌ wrap64
message_read = refl

change_down : lt scaled (clamp scaled network known.trust_score_change) (whole scaled 0) ≡ true
unfolding clamp ◌-ℤ◌
change_down = refl

abbrev is_ascii : Bytes → Bool
is_ascii [] = true
is_ascii (c ∷ b) = let rest = is_ascii b in ltb c 128 && rest

known_broadcast :
    broadcast_update scaled network (bytes "b") 1000 (bytes "c") (negsuc 9) (bytes "waf")
    ≡ some (bytes "u")
unfolding broadcast_update same_update ◌=s◌
known_broadcast = refl

read_update_iff_example :
    (read_update scaled network (bytes "a") 1100 message ≡ some known
      → IsAccepted scaled network (bytes "a") 1100 message known)
    × (IsAccepted scaled network (bytes "a") 1100 message known
        → read_update scaled network (bytes "a") 1100 message ≡ some known)
read_update_iff_example =
    read_update_iff scaled network (bytes "a") 1100 message known (omega arith)
      (omega arith, omega arith)

accepted_slash_spreads_example :
    IsSlashed scaled config
      (bytes "c")
      (slash_reason scaled network known)
      node
      manager
      (handle_reputation_message scaled network config (bytes "a") true 1100 message manager)
unfolding lookup ◌=s◌
accepted_slash_spreads_example =
    accepted_slash_spreads scaled network (bytes "a") config true 1100 message known manager node
      message_read change_down refl refl

broadcast_update-accepted_example :
    (u : ReputationUpdate scaled) × (read_update scaled network (bytes "a") 1100 message ≡ some u)
    × (u.subject_node_id ≡ bytes "c")
    × (u.trust_score_change ≡ negsuc 9)
    × (u.timestamp ≡ pos 1000)
unfolding ◌=s◌
broadcast_update-accepted_example =
    broadcast_update-accepted scaled network (bytes "a") is_ascii (bytes "b") (bytes "b") refl refl
      signature_holds (λ u t c b w. codec_reads u t) 1000 1100 (bytes "c") (negsuc 9) (bytes "waf")
      (bytes "u") refl refl refl (omega arith) (omega arith) (omega arith) known_broadcast

run_gossip-AllInRange_example :
    AllInRange scaled config (run_gossip scaled network config (bytes "a") manager gossip)
run_gossip-AllInRange_example =
    run_gossip-AllInRange scaled network config (bytes "a") gossip manager config-IsSane
      (record { from_zero = refl; to_hundred = refl }, tt)
