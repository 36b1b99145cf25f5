-- ===== src/Limiter.antt =====
-- internal/limiter/limiter.go: a token bucket for each session or key. The bucket is that of
-- golang.org/x/time/rate, a parameter. The calls are taken one after another, and a time is a number
-- of seconds.
pub mod Isolation
use tkngate.Base.{
  ℕ, ◌+◌, Bool, true, false, not, Option, none, some, List, [], ◌∷◌, ltb, if◌then◌else◌,
}
use tkngate.Base.Int.{ℤ}
use tkngate.Base.Bytes.{Bytes}
use tkngate.Base.Maps.{Map, lookup, insert}
use tkngate.Float64.{Float64, whole}
use tkngate.Budget.Guard.{of_int}

-- golang.org/x/time/rate
pub record Rate (F : Float64) : Type 1 where
  pub Limiter : Type 0
  pub new_limiter : F.Float → ℤ → Limiter
  pub allow : ℕ → Limiter → Bool × Limiter

-- config.Cfg.RateLimit
pub record RateLimitConfig : Type 0 where
  pub enabled : Bool
  pub requests_per_minute : ℤ
  pub burst_size : ℤ

module _ (F : Float64) (R : Rate F) where
  pub record LimiterEntry : Type 0 where
    pub limiter : R.Limiter
    pub last_seen : ℕ

  abbrev pub Manager : Type 0
  Manager = Map LimiterEntry

  -- The bucket of a new identifier.
  unfoldable pub fresh : RateLimitConfig → R.Limiter
  unfolding of_int
  fresh cfg = R.new_limiter (F.div (of_int F cfg.requests_per_minute) (whole F 60)) cfg.burst_size

  unfoldable pub bucket_of : RateLimitConfig → Bytes → Manager → R.Limiter
  unfolding fresh
  bucket_of cfg identifier m = elim (lookup identifier m) [ none ↦ fresh cfg | some e ↦ e.limiter ]

  unfoldable pub allow : RateLimitConfig → ℕ → Bytes → Manager → Bool × Manager
  unfolding bucket_of
  allow cfg now identifier m =
      if not cfg.enabled
      then (true, m)
      else let out = R.allow now (bucket_of cfg identifier m) in
        (out.0, insert identifier (record { limiter = out.1; last_seen = now }) m)

  -- A round of `StartCleanup`: a limiter that was not used for more than 30 minutes is removed.
  unfoldable pub cleanup : ℕ → Manager → Manager
  cleanup now [] = []
  cleanup now ((k, e) ∷ m) =
      if ltb (e.last_seen + 1800) now then cleanup now m else (k, e) ∷ cleanup now m

  pub reset : Manager → Manager
  reset m = []
