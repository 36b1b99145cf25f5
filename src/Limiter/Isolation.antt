-- ===== src/Limiter/Isolation.antt =====
-- The answers that an identifier gets do not depend on the requests of others.
use mathlib.Core.Path.{subst}
use tkngate.Base.{
  ℕ, ◌≡◌, refl, ap, ◌∙◌, sym, inl, inr, Bool, false, not, List, [], ◌∷◌, if◌then◌else◌, Bool-cases,
}
use tkngate.Base.Bytes.{Bytes, ◌=s◌, =s_eq, =s_refl}
use tkngate.Base.Maps.{lookup, lookup-insert}
use tkngate.Float64.{Float64}
use tkngate.Limiter.{Rate, RateLimitConfig, Manager, bucket_of, allow}

-- What of a list belongs to one identifier.
unfoldable pub only {ℓ} : {A : Type ℓ} → Bytes → List (Bytes × A) → List (Bytes × A)
only j [] = []
only j ((id, x) ∷ xs) = if id =s j then (id, x) ∷ only j xs else only j xs

module _ (F : Float64) (R : Rate F) (cfg : RateLimitConfig) where
  -- The answers to some requests, one after another, each with who asked.
  unfoldable pub answers : Manager F R → List (Bytes × ℕ) → List (Bytes × Bool)
  answers m [] = []
  answers m ((id, now) ∷ rs) = let out = allow F R cfg now id m in (id, out.0) ∷ answers out.1 rs

  allow-other :
      (now : ℕ) (id j : Bytes) (m : Manager F R)
      → (id =s j) ≡ false
      → lookup j (allow F R cfg now id m).1 ≡ lookup j m
  unfolding allow
  allow-other now id j m other = elim (Bool-cases (not cfg.enabled)) [
    | inl off ↦ rw (off, allow) refl
    | inr on ↦ rw (on, allow) (lookup-insert id j _ m ∙ rw other refl)
  ]

  allow-same :
      (now : ℕ) (id : Bytes) (m m' : Manager F R)
      → lookup id m ≡ lookup id m'
      → ((allow F R cfg now id m).0 ≡ (allow F R cfg now id m').0)
        × (lookup id (allow F R cfg now id m).1 ≡ lookup id (allow F R cfg now id m').1)
  unfolding allow bucket_of
  allow-same now id m m' e = elim (Bool-cases (not cfg.enabled)) [
    | inl off ↦ rw (off, allow) (refl, e)
    | inr on ↦
        let same : bucket_of F R cfg id m ≡ bucket_of F R cfg id m' = rw (e, bucket_of) refl in
        rw (on, allow)
          (
            ap (λ b. (R.allow now b).0) same,
            lookup-insert id id _ m ∙ rw (=s_refl id, same) refl ∙ sym (lookup-insert id id _ m'),
          )
  ]

  -- An identifier gets the same answers when the requests of the others are left out.
  pub only-answers :
      (j : Bytes) (rs : List (Bytes × ℕ)) (m m' : Manager F R)
      → lookup j m ≡ lookup j m'
      → only j (answers m rs) ≡ answers m' (only j rs)
  unfolding only answers
  only-answers j [] m m' e = refl
  only-answers j ((id, now) ∷ rs) m m' e = elim (Bool-cases (id =s j)) [
    | inl here ↦
        let eq = =s_eq id j here in
        let both = allow-same now id m m' (subst (λ k. lookup k m ≡ lookup k m') (sym eq) e) in
        let rest = only-answers j rs (allow F R cfg now id m).1 (allow F R cfg now id m').1 (
          subst (λ k. lookup k (allow F R cfg now id m).1 ≡ lookup k (allow F R cfg now id m').1) eq
            both.1) in
        rw (here, answers, only) (rw both.0 (ap (λ x. (id, (allow F R cfg now id m').0) ∷ x) rest))
    | inr other ↦
        rw (other, answers, only)
          (only-answers j rs (allow F R cfg now id m).1 m' (allow-other now id j m other ∙ e))
  ]
