-- ===== src/Tests/PoolProofs.antt =====
-- Requests to the pool with a proof, and of a node that was slashed.
use tkngate.Base.{ℕ, leb, ◌&&◌, ◌≡◌, ◌≢◌, refl, Bool, true, Option, some, List, [], ◌∷◌}
use tkngate.Base.Int.{pos, ◌-ℤ◌}
use tkngate.Base.Bytes.{bytes, ◌=s◌}
use tkngate.Base.Maps.{lookup}
use tkngate.Float64.Scaled.{scaled}
use tkngate.Mesh.Reputation.{slash}
use tkngate.Mesh.Reputation.Trust.{Event, success, run_events}
use tkngate.Pool.Drr.{routed, get_next_key}
use tkngate.Pool.Drr.Proofs.{
  verify_and_route, route_unproved, verify_and_route-strict, blacklisted_never_routed,
}
use tkngate.Tests.Pool.{config, manager, decrypt, ledger, engine, free_limit, peer_routed}

-- The proofs are numbers, and the engine accepts a proof that is the nonce.
abbrev verify : Option (ℕ → ℕ → Bool)
verify = some (λ p nonce. leb p nonce && leb nonce p)

proof_routed :
    (verify_and_route scaled decrypt config free_limit ℕ ℕ verify true true true true 9
      (bytes "openai")
      (bytes "peer")
      (pos 30)
      (some 7)
      7
      (some manager)
      ledger
      engine).0
    ≡ routed (bytes "k3")
unfolding verify_and_route route_unproved
proof_routed = peer_routed

verify_and_route-strict_example :
    let out =
      verify_and_route scaled decrypt config free_limit ℕ ℕ verify true true true true 9
        (bytes "openai")
        (bytes "peer")
        (pos 30)
        (some 7)
        7
        (some manager)
        ledger
        engine in
    (check : ℕ → ℕ → Bool) × (p : ℕ) × (verify ≡ some check)
    × (some 7 ≡ some p)
    × (check p 7 ≡ true)
    × (out
        ≡ route_unproved scaled decrypt config free_limit ℕ ℕ verify true true
            (bytes "openai")
            (bytes "peer")
            (pos 30)
            (some manager)
            ledger
            engine)
verify_and_route-strict_example =
    verify_and_route-strict scaled decrypt config free_limit ℕ ℕ verify true true true 9
      (bytes "openai") (bytes "peer") (pos 30) (some 7) 7 (some manager) ledger engine (bytes "k3")
      proof_routed

slash_answers :
    (slash scaled config true 10 (bytes "peer") (bytes "invalid ZKP proof") manager).0 ≡ true
unfolding slash ◌=s◌ ◌-ℤ◌ lookup
slash_answers = refl

abbrev events : List (Event scaled)
events = success true 20 (bytes "peer") ∷ []

blacklisted_never_routed_example :
    let m' =
      run_events scaled config
        (slash scaled config true 10 (bytes "peer") (bytes "invalid ZKP proof") manager).1
        events in
    (get_next_key scaled decrypt free_limit
      (some m')
      true
      true
      (bytes "openai")
      (bytes "peer")
      (pos 30)
      ledger
      engine).0
    ≢ routed (bytes "k3")
blacklisted_never_routed_example =
    blacklisted_never_routed scaled decrypt config free_limit true 10 (bytes "peer")
      (bytes "invalid ZKP proof") manager events true true (bytes "openai") (pos 30) ledger engine
      (bytes "k3") slash_answers
