-- ===== src/Cache/Semantic/Served.antt =====
-- What the cache serves: what was put for the same key, not longer ago than the TTL.
use tkngate.Base.{
  ℕ, suc, ◌≡◌, ◌⊎◌, inl, inr, refl, sym, ◌∙◌, none, some, List, [], ◌∷◌, arith, Bool-cases,
  Option-cases,
}
use tkngate.Base.Int.{ℤ, pos, ◌-ℤ◌, ◌≤ℤ◌}
use tkngate.Base.Bytes.{Bytes}
use tkngate.Base.Maps.{lookup}
use tkngate.Float64.{Float64}
use tkngate.Cache.Semantic.{
  CacheEntry, InMemoryCache, Codec, compute_key, init_cache, expired, hit, get_entry, clear,
}
use tkngate.Cache.Semantic.Calls.{Call, get, put, clear_all, call, run_calls}
use tkngate.Cache.Semantic.Kept.{
  IsSame, Holds, IsSame-refl, IsSame-trans, none≢entry, some-same, lookup_empty, get-Holds,
  put-Holds,
}

module _ (K : Codec) where
  module _ (F : Float64) where
    -- The calls put this response under the key.
    abbrev pub IsStored : List (Call F) → Bytes → CacheEntry → Type 0
    IsStored [] key e = ⊥
    IsStored (put now p body status cost ∷ xs) key e =
        ((compute_key K p ≡ key)
          × (e.response_body ≡ body)
          × (e.status_code ≡ status)
          × (e.cached_at ≡ now))
        ⊎ IsStored xs key e
    IsStored (get now p ∷ xs) key e = IsStored xs key e
    IsStored (clear_all ∷ xs) key e = IsStored xs key e

    IsStored-same :
        (xs : List (Call F)) (key : Bytes) (e f : CacheEntry)
        → IsSame e f
        → IsStored xs key f
        → IsStored xs key e
    IsStored-same [] key e f s h = h
    IsStored-same (put now p body status cost ∷ xs) key e f s (inl (k, b, t, w)) =
        inl (k, s.body ∙ b, s.status ∙ t, s.time ∙ w)
    IsStored-same (put now p body status cost ∷ xs) key e f s (inr h) =
        inr (IsStored-same xs key e f s h)
    IsStored-same (get now p ∷ xs) key e f s h = IsStored-same xs key e f s h
    IsStored-same (clear_all ∷ xs) key e f s h = IsStored-same xs key e f s h

    clear_empty :
        (key : Bytes) (c : InMemoryCache F) → lookup key (call K F c clear_all).entries ≡ none
    unfolding call clear lookup
    clear_empty key c = refl

    run-Holds :
        (xs : List (Call F)) (c : InMemoryCache F) (key : Bytes) (e : CacheEntry)
        → lookup key (run_calls K F c xs).entries ≡ some e
        → Holds K F c key e ⊎ IsStored xs key e
    unfolding run_calls call
    run-Holds [] c key e h = inl (e, h, IsSame-refl e)
    run-Holds (get now p ∷ xs) c key e h = elim (run-Holds xs (call K F c (get now p)) key e h) [
      | inl (f, found, s) ↦
          let (g, here, t) = get-Holds K F now p key c f found in
          inl (g, here, IsSame-trans e f g s t)
      | inr stored ↦ inr stored
    ]
    run-Holds (put now p body status cost ∷ xs) c key e h =
        elim (run-Holds xs (call K F c (put now p body status cost)) key e h) [
          | inl (f, found, s) ↦ elim (put-Holds K F now p body key status cost c f found) [
            | inl (g, here, t) ↦ inl (g, here, IsSame-trans e f g s t)
            | inr (k, b, t, w) ↦ inr (inl (k, s.body ∙ b, s.status ∙ t, s.time ∙ w))
          ]
          | inr stored ↦ inr (inr stored)
        ]
    run-Holds (clear_all ∷ xs) c key e h = elim (run-Holds xs (call K F c clear_all) key e h) [
      | inl (f, found, s) ↦ absurd (none≢entry f (sym (clear_empty key c) ∙ found))
      | inr stored ↦ inr stored
    ]

    -- An answer is an entry of the map that has not expired, with one hit more.
    get_found :
        (now : ℕ) (p : Bytes) (c : InMemoryCache F) (e : CacheEntry)
        → (get_entry K F now p c).0 ≡ some e
        → (v : CacheEntry) × (lookup (compute_key K p) c.entries ≡ some v)
          × IsSame e v
          × ((pos now -ℤ pos v.cached_at) ≤ℤ c.ttl)
    unfolding get_entry hit expired
    get_found now p c e h = elim (Option-cases (lookup (compute_key K p) c.entries)) [
      | inl out ↦
          let eq : (get_entry K F now p c).0 ≡ none = rw (out, get_entry) refl in
          absurd (none≢entry e (sym eq ∙ h))
      | inr (v, found) ↦ elim (Bool-cases (expired K F now v c)) [
        | inl old ↦
            let eq : (get_entry K F now p c).0 ≡ none = rw (found, get_entry) (rw old refl) in
            absurd (none≢entry e (sym eq ∙ h))
        | inr young ↦
            let v' : CacheEntry = record v { hit_count = suc v.hit_count } in
            let eq : (get_entry K F now p c).0 ≡ some v' = rw (found, get_entry) (rw young refl) in
            let same : v' ≡ e = some-same v' e (sym eq ∙ h) in
            (v, found, rw (← same) record { body = refl; status = refl; time = refl }, ground arith)
      ]
    ]

    -- What Get returns after any calls of a new cache was put by one of them for a payload with the
    -- same key, body, status and time unchanged, and not longer ago than the TTL.
    pub served_was_put :
        (max_size ttl_seconds : ℤ) (xs : List (Call F)) (now : ℕ) (p : Bytes) (e : CacheEntry)
        → let c = run_calls K F (init_cache K F max_size ttl_seconds) xs in
          (get_entry K F now p c).0 ≡ some e
          → IsStored xs (compute_key K p) e × ((pos now -ℤ pos e.cached_at) ≤ℤ c.ttl)
    unfolding init_cache
    served_was_put max_size ttl_seconds xs now p e h =
        let start = init_cache K F max_size ttl_seconds in
        let (v, found, s, young) = get_found now p (run_calls K F start xs) e h in
        elim (run-Holds xs start (compute_key K p) v found) [
          | inl (f, here, t) ↦ absurd (none≢entry f (sym (lookup_empty (compute_key K p)) ∙ here))
          | inr stored ↦ (IsStored-same xs (compute_key K p) e v s stored, rw s.time young)
        ]
