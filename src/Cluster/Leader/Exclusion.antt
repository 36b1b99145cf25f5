-- ===== src/Cluster/Leader/Exclusion.antt =====
-- While a leader's lock lasts, no other instance becomes the leader.
use tkngate.Base.{
  ℕ, ◌+◌, ◌<◌, ◌≡◌, ◌≢◌, refl, inl, inr, true, false, Option, none, some, List, [], ◌∷◌, ltb, arith,
  All, Bool-cases,
}
use tkngate.Base.Bytes.{Bytes, ◌=s◌, =s_iff, =s_refl}
use tkngate.Base.Maps.{lookup, insert, lookup-insert}
use tkngate.Cluster.Leader.{Lock, Election, live, ttl, script, Tick, elect_leader, run_ticks}

-- The lock is the node's until the time, and no other node is marked as the leader.
pub record IsHeld (node : Bytes) (until : ℕ) (e : Election) : Type 0 where
  pub held : e.lock ≡ some record { holder = node; expires_at = until }
  pub alone : (j : Bytes) → (j =s node) ≡ false → lookup j e.is_leader ≢ some true

elect_leader-IsHeld :
    (node : Bytes) (until : ℕ) (e : Election) (t : Tick)
    → (t.node =s node) ≡ false
    → t.now < until
    → IsHeld node until e
    → IsHeld node until (elect_leader e t)
unfolding elect_leader live script
elect_leader-IsHeld node until e t other early h =
    let apart : (node =s t.node) ≡ false = ground (arith, =s_iff node t.node, =s_iff t.node node) in
    let alive : ltb t.now until ≡ true = ground arith in
    let same : script t.node t.now (live t.now e.lock) ≡ (false, e.lock) =
      rw (h.held) (rw (alive, live) (rw (apart, script) refl)) in
    let still : (j : Bytes)
        → (j =s node) ≡ false
        → lookup j (insert t.node false e.is_leader) ≢ some true =
      λ j away p. h.alone j away (ground (arith, lookup-insert t.node j false e.is_leader)) in
    let eq : elect_leader e t
        ≡ record { lock = e.lock; is_leader = insert t.node false e.is_leader } =
      elim (Bool-cases t.reachable) [
        | inl up ↦ rw (up, elect_leader) (rw same refl)
        | inr down ↦ rw (down, elect_leader) refl
      ] in
    rw eq record { held = h.held; alone = still }

script_success :
    (node : Bytes) (now : ℕ) (l : Option Lock)
    → (script node now l).0 ≡ true
    → (script node now l).1 ≡ some record { holder = node; expires_at = now + ttl }
unfolding script
script_success node now none h = refl
script_success node now (some l) h = ground arith

run_ticks-IsHeld :
    (node : Bytes) (until : ℕ) (ts : List Tick) (e : Election)
    → All (λ t. ((t.node =s node) ≡ false) × (t.now < until)) ts
    → IsHeld node until e
    → IsHeld node until (run_ticks e ts)
unfolding run_ticks
run_ticks-IsHeld node until [] e others h = h
run_ticks-IsHeld node until (t ∷ ts) e ((other, early), others) h =
    run_ticks-IsHeld node until ts (elect_leader e t) others
      (elect_leader-IsHeld node until e t other early h)

elected-IsHeld :
    (node : Bytes) (now : ℕ) (e : Election)
    → ((j : Bytes) → (j =s node) ≡ false → lookup j e.is_leader ≢ some true)
    → lookup node (elect_leader e (record { node = node; now = now; reachable = true })).is_leader
      ≡ some true
    → IsHeld node (now + ttl) (elect_leader e (record { node = node; now = now; reachable = true }))
unfolding elect_leader
elected-IsHeld node now e nobody elected =
    let won : (script node now (live now e.lock)).0 ≡ true = ground (
      arith,
      =s_refl node,
      lookup-insert node node (script node now (live now e.lock)).0 e.is_leader,
    ) in
    record {
      held = script_success node now (live now e.lock) won;
      alone = λ j away p. nobody j away (
          ground (
            arith,
            =s_iff node j,
            =s_iff j node,
            lookup-insert node j (script node now (live now e.lock)).0 e.is_leader,
          ));
    }

-- An instance that is elected while no other one takes itself for the leader keeps the lock for ten
-- seconds, and no other instance is the leader, whatever ticks the others have in that time.
pub elected_alone :
    (node : Bytes) (now : ℕ) (e : Election) (ts : List Tick)
    → ((j : Bytes) → (j =s node) ≡ false → lookup j e.is_leader ≢ some true)
    → lookup node (elect_leader e (record { node = node; now = now; reachable = true })).is_leader
      ≡ some true
    → All (λ t. ((t.node =s node) ≡ false) × (t.now < now + ttl)) ts
    → IsHeld node
        (now + ttl)
        (run_ticks (elect_leader e (record { node = node; now = now; reachable = true })) ts)
elected_alone node now e ts nobody elected others =
    run_ticks-IsHeld node (now + ttl) ts
      (elect_leader e (record { node = node; now = now; reachable = true })) others
      (elected-IsHeld node now e nobody elected)
