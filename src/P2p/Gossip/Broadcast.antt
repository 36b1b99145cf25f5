-- ===== src/P2p/Gossip/Broadcast.antt =====
-- What a node publishes, and what it makes of the others' reports.
use tkngate.Base.{
  ℕ, ◌+◌, ◌≤◌, ◌<◌, ◌≡◌, ◌⊎◌, ◌||◌, refl, inl, inr, Bool, true, false, some, arith, Bool-cases,
  ◌>>=◌, bind_some,
}
use tkngate.Base.Int.{
  ℤ, pos, pos_part, neg_part, ◌-ℤ◌, ltb_ℤ, leb_ℤ, ◌≤ℤ◌, -ℤ_parts, wrap64, wrap64-small, IsInt64,
}
use tkngate.Base.Bytes.{Bytes, ◌=s◌, =s_iff, =s_refl}
use tkngate.Base.Maps.{lookup}
use tkngate.Float64.{Float64, whole, lt}
use tkngate.Mesh.Reputation.{MeshConfig, NodeReputation, ReputationManager}
use tkngate.Mesh.Reputation.Trust.Slashing.{IsSlashed, slash-IsSlashed}
use tkngate.P2p.Gossip.{
  ReputationUpdate, Message, Network, text_of, check_update, read_update, clamp, slash_reason,
  apply_update, handle_reputation_message, broadcast_update,
}

-- What the test of the age lets pass: 300 seconds, and what is so old that the difference wraps.
abbrev pub IsRecent : ℕ → ℤ → Type 0
IsRecent now timestamp =
    ((pos now -ℤ timestamp) ≤ℤ pos 300) ⊎ (pos 9223372036854775808 ≤ℤ (pos now -ℤ timestamp))

age_parts :
    (now : ℕ) (timestamp : ℤ)
    → now < 9223372036854775808
    → IsInt64 timestamp
    → (neg_part (pos now -ℤ timestamp) ≤ 9223372036854775808)
      × (pos_part (pos now -ℤ timestamp) < 18446744073709551616)
unfolding ◌-ℤ◌
age_parts now timestamp clock range =
    (ground (arith, range.0, range.1), ground (arith, range.0, range.1))

age_test :
    (now : ℕ) (timestamp : ℤ)
    → now < 9223372036854775808
    → IsInt64 timestamp
    → leb_ℤ (wrap64 (pos now -ℤ timestamp)) (pos 300) ≡ (
        leb_ℤ (pos now -ℤ timestamp) (pos 300)
        || leb_ℤ (pos 9223372036854775808) (pos now -ℤ timestamp))
age_test now timestamp clock range =
    let (low, high) = age_parts now timestamp clock range in
    wrap64-small (pos now -ℤ timestamp) 300 (omega arith) low high

recent_iff :
    (now : ℕ) (timestamp : ℤ)
    → now < 9223372036854775808
    → IsInt64 timestamp
    → (ltb_ℤ (pos 300) (wrap64 (pos now -ℤ timestamp)) ≡ false → IsRecent now timestamp)
      × (IsRecent now timestamp → ltb_ℤ (pos 300) (wrap64 (pos now -ℤ timestamp)) ≡ false)
recent_iff now timestamp clock range = (
  λ e. ground (arith, age_test now timestamp clock range),
  λ r. elim r [
    | inl young ↦ ground (arith, age_test now timestamp clock range)
    | inr old ↦ ground (arith, age_test now timestamp clock range)
  ],
)

module _ (F : Float64) (N : Network F) (own : Bytes) where
  -- What the tests of the handler establish about a message that passes them.
  pub record IsAccepted (now : ℕ) (msg : Message) (u : ReputationUpdate F) : Type 0 where
    pub foreign : (msg.received_from =s own) ≡ false
    pub decoded : N.decode_update msg.msg_data ≡ some u
    pub key : N.Key
    pub extracted : N.extract_key msg.from ≡ some key
    pub signed : N.verify key (text_of F N u) u.signature ≡ true
    pub reporter : u.reporter_node_id ≡ msg.received_from
    pub fresh : IsRecent now u.timestamp

  some-same : (a b : ReputationUpdate F) → some a ≡ some b → a ≡ b
  some-same a b e = cc

  check_update-accepts :
      (now : ℕ) (msg : Message) (key : N.Key) (u v : ReputationUpdate F)
      → check_update F N now msg key u ≡ some v
      → (u ≡ v)
        × (N.verify key (text_of F N u) u.signature ≡ true)
        × (u.reporter_node_id ≡ msg.received_from)
        × (ltb_ℤ (pos 300) (wrap64 (pos now -ℤ u.timestamp)) ≡ false)
  unfolding check_update
  check_update-accepts now msg key u v e = (
    ground (arith, some-same u v),
    ground arith,
    ground (arith, =s_iff u.reporter_node_id msg.received_from),
    ground arith,
  )

  read_update_chain :
      (now : ℕ) (msg : Message) (u : ReputationUpdate F)
      → read_update F N own now msg ≡ some u
      → ((msg.received_from =s own) ≡ false)
        × ((N.decode_update msg.msg_data >>= λ w.
              N.extract_key msg.from >>= λ k. check_update F N now msg k w)
            ≡ some u)
  unfolding read_update
  read_update_chain now msg u e = elim (Bool-cases (msg.received_from =s own)) [
    | inl self ↦ absurd (ground arith)
    | inr other ↦ (other, ground arith)
  ]

  accepted :
      (now : ℕ) (msg : Message) (u : ReputationUpdate F)
      → now < 9223372036854775808
      → IsInt64 u.timestamp
      → read_update F N own now msg ≡ some u
      → IsAccepted now msg u
  accepted now msg u clock range e =
      let (other, chain) = read_update_chain now msg u e in
      let (w, decoded, rest) = bind_some (N.decode_update msg.msg_data) _ u chain in
      let (key, extracted, checked) = bind_some (N.extract_key msg.from) _ u rest in
      let (same, signed, reporter, fresh) = check_update-accepts now msg key w u checked in
      record {
        foreign = other;
        decoded = rw (← same) decoded;
        key = key;
        extracted = extracted;
        signed = rw (← same) signed;
        reporter = rw (← same) reporter;
        fresh = (recent_iff now u.timestamp clock range).0 (rw (← same) fresh);
      }

  passes :
      (now : ℕ) (msg : Message) (u : ReputationUpdate F)
      → now < 9223372036854775808
      → IsInt64 u.timestamp
      → IsAccepted now msg u
      → read_update F N own now msg ≡ some u
  unfolding read_update check_update text_of
  passes now msg u clock range a =
      let same : (u.reporter_node_id =s msg.received_from) ≡ true =
        rw a.reporter (=s_refl msg.received_from) in
      let young = (recent_iff now u.timestamp clock range).1 a.fresh in
      rw (a.foreign, read_update)
        (rw a.decoded (rw a.extracted (rw a.signed (rw same (rw young refl)))))

  -- The handler takes an update exactly if another peer passed it on, the peer that made the
  -- message has signed it, it names the peer that passed it on as its reporter, and it is at most
  -- 300 seconds old or at least 2 ^ 63 seconds, where the difference of the int64s wraps. The clock
  -- and the time of the update are int64s.
  pub read_update_iff :
      (now : ℕ) (msg : Message) (u : ReputationUpdate F)
      → now < 9223372036854775808
      → IsInt64 u.timestamp
      → (read_update F N own now msg ≡ some u → IsAccepted now msg u)
        × (IsAccepted now msg u → read_update F N own now msg ≡ some u)
  unfolding read_update check_update
  read_update_iff now msg u clock range =
      (λ e. accepted now msg u clock range e, λ a. passes now msg u clock range a)

  -- A node that hears of a slash that it accepts slashes by its own penalty, whatever amount the
  -- message names, and reports a slash in turn: if it listens to changes and knows the node, its
  -- report is one more change of minus the penalty.
  pub accepted_slash_spreads :
      (cfg : MeshConfig F) (run : Bool) (now : ℕ) (msg : Message) (u : ReputationUpdate F)
      (m : ReputationManager F) (rep : NodeReputation F)
      → read_update F N own now msg ≡ some u
      → lt F (clamp F N u.trust_score_change) (whole F 0) ≡ true
      → lookup u.subject_node_id m.nodes ≡ some rep
      → m.listening ≡ true
      → IsSlashed F cfg u.subject_node_id
          (slash_reason F N u)
          rep
          m
          (handle_reputation_message F N cfg own run now msg m)
  unfolding handle_reputation_message apply_update
  accepted_slash_spreads cfg run now msg u m rep e down known listening =
      rw (e, handle_reputation_message)
        (rw (down, apply_update)
          (slash-IsSlashed F cfg run now u.subject_node_id (slash_reason F N u) m rep known
            listening))

  -- What a node broadcasts, its neighbours accept: if the codec reads back the updates it
  -- writes whose texts are valid UTF-8, and the sender's key verifies what the sender signs, then a
  -- message with such texts that comes straight from the sender within 300 seconds passes the tests of
  -- another node, with the change that was sent.
  pub broadcast_update-accepted :
      (is_utf8 : Bytes → Bool) (sender : Bytes) (key : N.Key)
      → (sender =s own) ≡ false
      → N.extract_key sender ≡ some key
      → ((text signature : Bytes)
          → N.sign text ≡ some signature
          → N.verify key text signature ≡ true)
      → ((u : ReputationUpdate F) (text : Bytes)
          → is_utf8 u.subject_node_id ≡ true
          → is_utf8 u.reporter_node_id ≡ true
          → is_utf8 u.reason ≡ true
          → N.encode_update u ≡ some text
          → N.decode_update text ≡ some u)
      → (sent now : ℕ) (subject : Bytes) (change : F.Float) (reason text : Bytes)
      → is_utf8 subject ≡ true
      → is_utf8 sender ≡ true
      → is_utf8 reason ≡ true
      → now ≤ sent + 300
      → sent < 9223372036854775808
      → now < 9223372036854775808
      → broadcast_update F N sender sent subject change reason ≡ some text
      → (u : ReputationUpdate F) × (read_update F N own now
            record { received_from = sender; from = sender; msg_data = text }
          ≡ some u)
        × (u.subject_node_id ≡ subject)
        × (u.trust_score_change ≡ change)
        × (u.timestamp ≡ pos sent)
  unfolding broadcast_update text_of
  broadcast_update-accepted is_utf8 sender key foreign extracted signs codec sent now subject change
        reason text valid_subject valid_sender valid_reason young sent_range clock e =
      let (signature, signed, rest) =
        bind_some (N.sign (N.update_text subject sender change reason (pos sent))) _ text e in
      let u : ReputationUpdate F = record {
        subject_node_id = subject;
        reporter_node_id = sender;
        trust_score_change = change;
        reason = reason;
        timestamp = pos sent;
        signature = signature;
      } in
      let msg : Message = record { received_from = sender; from = sender; msg_data = text } in
      let a : IsAccepted now msg u = record {
        foreign = foreign;
        decoded = codec u text valid_subject valid_sender valid_reason rest;
        key = key;
        extracted = extracted;
        signed = signs _ signature signed;
        reporter = refl;
        fresh = inl (ground (arith, -ℤ_parts (pos now) (pos sent)));
      } in
      let range : IsInt64 (pos sent) = (sent_range, omega arith) in
      (u, passes now msg u clock range a, refl, refl, refl)
