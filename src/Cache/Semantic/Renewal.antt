-- ===== src/Cache/Semantic/Renewal.antt =====
-- What is put can be got.
use tkngate.Base.{ℕ, ◌≡◌, refl, ◌∙◌, false, some, [], ◌∷◌, arith}
use tkngate.Base.Int.{ℤ, pos, ◌-ℤ◌, ◌≤ℤ◌}
use tkngate.Base.Bytes.{Bytes, bytes, =s_refl}
use tkngate.Base.Maps.{lookup, lookup-insert}
use tkngate.Float64.{Float64}
use tkngate.Cache.Semantic.{
  CacheEntry, InMemoryCache, Codec, compute_key, evict_oldest, expired, hit, get_entry, make_room,
  put_entry,
}

module _ (K : Codec) (F : Float64) where
  make_room_ttl : (c : InMemoryCache F) → (make_room K F c).ttl ≡ c.ttl
  unfolding make_room evict_oldest
  make_room_ttl c = ground arith

  -- A response that was put is got back with its body and status, as its first hit, by a Get of any
  -- payload with the same key that is the very next call and comes while it is not older than the TTL.
  pub put_then_get :
      (now later : ℕ) (p q body : Bytes) (status : ℤ) (cost : F.Float) (c : InMemoryCache F)
      → compute_key K q ≡ compute_key K p
      → (pos later -ℤ pos now) ≤ℤ c.ttl
      → (e : CacheEntry) × ((get_entry K F later q (put_entry K F now p body status cost c)).0
          ≡ some e)
        × (e.response_body ≡ body)
        × (e.status_code ≡ status)
        × (e.hit_count ≡ 1)
  unfolding put_entry get_entry hit expired
  put_then_get now later p q body status cost c same young =
      let e : CacheEntry = record {
        response_body = body;
        status_code = status;
        headers = (bytes "X-Tkngate-Cache", bytes "STORED") ∷ [];
        cached_at = now;
        hit_count = 0;
      } in
      let c' = put_entry K F now p body status cost c in
      let found : lookup (compute_key K q) c'.entries ≡ some e = rw same (
        lookup-insert (compute_key K p) (compute_key K p) e (make_room K F c).entries
        ∙ rw (=s_refl (compute_key K p)) refl) in
      let ttl_kept : c'.ttl ≡ c.ttl = make_room_ttl c in
      let fresh : expired K F later e c' ≡ false = ground (arith, ttl_kept) in
      (record e { hit_count = 1 }, rw (found, get_entry) (rw fresh refl), refl, refl, refl)
