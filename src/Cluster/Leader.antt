-- ===== src/Cluster/Leader.antt =====
-- `electLeader` of internal/cluster/leader.go: one tick of each instance's loop. Redis runs the
-- script of a tick as one step; the lock is its holder and when it expires, in milliseconds.
pub mod Exclusion
use tkngate.Base.{
  ℕ, ◌+◌, Bool, true, false, ◌&&◌, Option, none, some, List, [], ◌∷◌, ltb, if◌then◌else◌,
}
use tkngate.Base.Bytes.{Bytes, ◌=s◌}
use tkngate.Base.Maps.{Map, lookup, insert}

pub record Lock : Type 0 where
  pub holder : Bytes
  pub expires_at : ℕ

-- The lock in Redis, and `IsLeader` of every instance.
pub record Election : Type 0 where
  pub lock : Option Lock
  pub is_leader : Map Bool

-- A key that has expired is not there.
unfoldable pub live : ℕ → Option Lock → Option Lock
live now none = none
live now (some l) = if ltb now l.expires_at then some l else none

abbrev pub ttl : ℕ
ttl = 10000

-- The Lua script: whether it returns 1, and the lock it leaves.
unfoldable pub script : Bytes → ℕ → Option Lock → Bool × Option Lock
script node now none = (true, some record { holder = node; expires_at = now + ttl })
script node now (some l) =
    if l.holder =s node
    then (true, some record { holder = node; expires_at = now + ttl })
    else (false, some l)

-- A tick of an instance; without Redis it is not the leader.
pub record Tick : Type 0 where
  pub node : Bytes
  pub now : ℕ
  pub reachable : Bool

unfoldable pub elect_leader : Election → Tick → Election
unfolding live script
elect_leader e t =
    if t.reachable
    then (let out = script t.node t.now (live t.now e.lock) in
        record { lock = out.1; is_leader = insert t.node out.0 e.is_leader })
    else record e { is_leader = insert t.node false e.is_leader }

unfoldable pub run_ticks : Election → List Tick → Election
unfolding elect_leader
run_ticks e [] = e
run_ticks e (t ∷ ts) = run_ticks (elect_leader e t) ts
