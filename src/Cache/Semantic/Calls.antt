-- ===== src/Cache/Semantic/Calls.antt =====
-- Sequences of calls of the cache.
use tkngate.Base.{ℕ, List, [], ◌∷◌}
use tkngate.Base.Int.{ℤ}
use tkngate.Base.Bytes.{Bytes}
use tkngate.Float64.{Float64}
use tkngate.Cache.Semantic.{InMemoryCache, Codec, get_entry, put_entry, clear}

pub data Call (F : Float64) : Type 0 where
  get : ℕ → Bytes → Call F
  put : ℕ → Bytes → Bytes → ℤ → F.Float → Call F
  clear_all : Call F

module _ (K : Codec) (F : Float64) where
  unfoldable pub call : InMemoryCache F → Call F → InMemoryCache F
  call c (get now payload) = (get_entry K F now payload c).1
  call c (put now payload body status cost) = put_entry K F now payload body status cost c
  call c clear_all = clear K F c

  unfoldable pub run_calls : InMemoryCache F → List (Call F) → InMemoryCache F
  unfolding call
  run_calls c [] = c
  run_calls c (x ∷ xs) = run_calls (call c x) xs
