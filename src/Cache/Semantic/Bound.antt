-- ===== src/Cache/Semantic/Bound.antt =====
-- The cache never holds more entries than it may.
use tkngate.Base.{
  ℕ, suc, ◌+◌, ◌≤◌, ◌<◌, ◌≡◌, ◌≢◌, inl, inr, refl, ◌∙◌, true, false, List, [], ◌∷◌, length, arith,
  Bool-cases, Option-cases,
}
use tkngate.Base.Int.{ℤ, pos, ◌≤ℤ◌, leb_ℤ}
use tkngate.Base.Bytes.{Bytes, ◌=s◌, =s_iff}
use tkngate.Base.Maps.{lookup, length-insert-le, length-erase-le}
use tkngate.Float64.{Float64}
use tkngate.Cache.Semantic.{
  InMemoryCache, Codec, oldest, canonical, compute_key, init_cache, evict_oldest, expired, hit,
  get_entry, make_room, put_entry, clear,
}
use tkngate.Cache.Semantic.Calls.{Call, get, put, clear_all, call, run_calls}
use tkngate.Cache.Semantic.Capacity.{
  AllKeyed, length-erase-lt, length-insert-present, insert-AllKeyed, erase-AllKeyed, oldest_found,
}

le_pos : (a b : ℕ) (x : ℤ) → a ≤ b → pos b ≤ℤ x → pos a ≤ℤ x
le_pos a b x h k = omega arith

module _ (K : Codec) (full : (b : Bytes) → K.digest b ≢ []) (F : Float64) where
  pub record IsBounded (limit : ℤ) (c : InMemoryCache F) : Type 0 where
    pub same_limit : c.max_size ≡ limit
    pub fits : pos (length c.entries) ≤ℤ limit
    pub keyed : AllKeyed c.entries

  compute_key_full : (p : Bytes) → compute_key K p ≢ []
  unfolding compute_key
  compute_key_full p = elim (Option-cases (K.unmarshal p)) [
    | inl e ↦ rw (e, compute_key) (full p)
    | inr (fields, e) ↦ elim (Option-cases (K.marshal (canonical K fields))) [
      | inl f ↦ rw (e, compute_key) (rw f (full p))
      | inr (b, f) ↦ rw (e, compute_key) (rw f (full b))
    ]
  ]

  -- An eviction leaves less, unless there was nothing.
  evict_shrinks :
      (c : InMemoryCache F)
      → AllKeyed c.entries
      → 1 ≤ length c.entries
      → (length (evict_oldest K F c).entries < length c.entries)
        × AllKeyed (evict_oldest K F c).entries
        × ((evict_oldest K F c).max_size ≡ c.max_size)
  unfolding evict_oldest
  evict_shrinks c keyed some_entry =
      let (key_full, place) = oldest_found c.entries keyed some_entry in
      let not_empty : (oldest c.entries [] 0 =s []) ≡ false =
        ground (arith, =s_iff (oldest c.entries [] 0) []) in
      rw (not_empty, evict_oldest)
        (
          length-erase-lt (oldest c.entries [] 0) c.entries place,
          erase-AllKeyed (oldest c.entries [] 0) c.entries keyed,
          refl,
        )

  module _ (limit : ℤ) (positive : pos 1 ≤ℤ limit) where
    make_room_fits :
        (c : InMemoryCache F)
        → IsBounded limit c
        → (pos (length (make_room K F c).entries + 1) ≤ℤ limit)
          × AllKeyed (make_room K F c).entries
          × ((make_room K F c).max_size ≡ c.max_size)
    unfolding make_room
    make_room_fits c b = elim (Bool-cases (leb_ℤ c.max_size (pos (length c.entries)))) [
      | inl at_limit ↦
          let reached : leb_ℤ limit (pos (length c.entries)) ≡ true =
            rw (← b.same_limit) at_limit in
          let (less, keyed, same) = evict_shrinks c b.keyed (ground (arith, b.fits, positive)) in
          rw (at_limit, make_room) (ground (arith, b.fits), keyed, same)
      | inr below ↦
          let short : leb_ℤ limit (pos (length c.entries)) ≡ false = rw (← b.same_limit) below in
          rw (below, make_room) (ground arith, b.keyed, refl)
    ]

    put-IsBounded :
        (now : ℕ) (p body : Bytes) (status : ℤ) (cost : F.Float) (c : InMemoryCache F)
        → IsBounded limit c
        → IsBounded limit (put_entry K F now p body status cost c)
    unfolding put_entry
    put-IsBounded now p body status cost c b =
        let (room, keyed, same) = make_room_fits c b in
        record {
          same_limit = same ∙ b.same_limit;
          fits =
              le_pos _ _ limit (length-insert-le (compute_key K p) _ (make_room K F c).entries)
                room;
          keyed =
              insert-AllKeyed (compute_key K p) _ (make_room K F c).entries (compute_key_full p)
                keyed;
        }

    get-IsBounded :
        (now : ℕ) (p : Bytes) (c : InMemoryCache F)
        → IsBounded limit c
        → IsBounded limit (get_entry K F now p c).1
    unfolding get_entry hit
    get-IsBounded now p c b = elim (Option-cases (lookup (compute_key K p) c.entries)) [
      | inl e ↦
          rw (e, get_entry) record { same_limit = b.same_limit; fits = b.fits; keyed = b.keyed }
      | inr (v, e) ↦ elim (Bool-cases (expired K F now v c)) [
        | inl old ↦
            rw (e, get_entry)
              (rw old record {
                same_limit = b.same_limit;
                fits = le_pos _ _ limit (length-erase-le (compute_key K p) c.entries) b.fits;
                keyed = erase-AllKeyed (compute_key K p) c.entries b.keyed;
              })
        | inr young ↦
            rw (e, get_entry)
              (rw young record {
                same_limit = b.same_limit;
                fits =
                    rw
                      (length-insert-present (compute_key K p)
                        (record v { hit_count = suc v.hit_count }) c.entries (v, e))
                      b.fits;
                keyed =
                    insert-AllKeyed (compute_key K p) (record v { hit_count = suc v.hit_count })
                      c.entries (compute_key_full p) b.keyed;
              })
      ]
    ]

    call-IsBounded :
        (x : Call F) (c : InMemoryCache F) → IsBounded limit c → IsBounded limit (call K F c x)
    unfolding call clear
    call-IsBounded (get now p) c b = get-IsBounded now p c b
    call-IsBounded (put now p body status cost) c b = put-IsBounded now p body status cost c b
    call-IsBounded clear_all c b = record {
      same_limit = b.same_limit;
      fits = omega arith;
      keyed = tt;
    }

    run-IsBounded :
        (xs : List (Call F)) (c : InMemoryCache F)
        → IsBounded limit c
        → IsBounded limit (run_calls K F c xs)
    unfolding run_calls
    run-IsBounded [] c b = b
    run-IsBounded (x ∷ xs) c b = run-IsBounded xs (call K F c x) (call-IsBounded x c b)

  -- From InitCache on, whatever the configuration and the calls, the cache never holds more entries
  -- than the limit that InitCache has set, as long as no digest is the empty string.
  pub run_calls-bounded :
      (max_size ttl_seconds : ℤ) (xs : List (Call F))
      → let c = init_cache K F max_size ttl_seconds in
        pos (length (run_calls K F c xs).entries) ≤ℤ c.max_size
  unfolding init_cache
  run_calls-bounded max_size ttl_seconds xs =
      let c = init_cache K F max_size ttl_seconds in
      let positive : pos 1 ≤ℤ c.max_size = ground arith in
      (run-IsBounded c.max_size positive xs c
        record { same_limit = refl; fits = omega arith; keyed = tt }).fits
