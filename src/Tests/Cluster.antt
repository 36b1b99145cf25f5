-- ===== src/Tests/Cluster.antt =====
-- Two instances, of which the first is elected.
use tkngate.Base.{◌+◌, ◌≡◌, ◌≢◌, refl, true, false, none, some, List, [], ◌∷◌, arith}
use tkngate.Base.Bytes.{Bytes, bytes, ◌=s◌}
use tkngate.Base.Maps.{lookup, insert}
use tkngate.Cluster.Leader.{Election, ttl, Tick, elect_leader, run_ticks, live, script}
use tkngate.Cluster.Leader.Exclusion.{IsHeld, elected_alone}

abbrev start : Election
start = record { lock = none; is_leader = [] }

abbrev first : Tick
first = record { node = bytes "a"; now = 5000; reachable = true }

abbrev ticks : List Tick
ticks =
    record { node = bytes "b"; now = 6000; reachable = true }
    ∷ record { node = bytes "b"; now = 14999; reachable = false }
    ∷ []

nobody : (j : Bytes) → (j =s bytes "a") ≡ false → lookup j start.is_leader ≢ some true
unfolding lookup
nobody j away e = absurd (ground arith)

a_elected : lookup (bytes "a") (elect_leader start first).is_leader ≡ some true
unfolding elect_leader live script lookup insert ◌=s◌
a_elected = refl

elected_alone_example : IsHeld (bytes "a") (5000 + ttl) (run_ticks (elect_leader start first) ticks)
unfolding ◌=s◌
elected_alone_example =
    elected_alone (bytes "a") 5000 start ticks nobody a_elected
      ((refl, omega arith), ((refl, omega arith), tt))
