-- ===== src/Cache/Semantic/Kept.antt =====
-- What one call leaves in the cache: nothing that was not there or put.
use tkngate.Base.{
  ℕ, suc, ◌≡◌, ◌≢◌, ◌⊎◌, inl, inr, refl, sym, ap, ◌∙◌, none, some, [], ◌∷◌, arith, Bool-cases,
  Option-cases,
}
use tkngate.Base.Int.{ℤ}
use tkngate.Base.Bytes.{Bytes, bytes, ◌=s◌, =s_iff}
use tkngate.Base.Maps.{Map, lookup, insert, erase, lookup-insert, lookup-erase}
use tkngate.Float64.{Float64}
use tkngate.Cache.Semantic.{
  CacheEntry, InMemoryCache, Codec, oldest, compute_key, evict_oldest, expired, hit, get_entry,
  make_room, put_entry,
}

-- The same response, apart from the count of its hits.
pub record IsSame (e f : CacheEntry) : Type 0 where
  pub body : e.response_body ≡ f.response_body
  pub status : e.status_code ≡ f.status_code
  pub time : e.cached_at ≡ f.cached_at

pub none≢entry : (e : CacheEntry) → none ≢ some e
none≢entry e h = absurd (ground arith)

pub some-same : (a b : CacheEntry) → some a ≡ some b → a ≡ b
some-same a b e = cc

pub lookup_empty : (key : Bytes) → lookup {V = CacheEntry} key [] ≡ none
unfolding lookup
lookup_empty key = refl

pub IsSame-refl : (e : CacheEntry) → IsSame e e
IsSame-refl e = record { body = refl; status = refl; time = refl }

pub IsSame-trans : (e f g : CacheEntry) → IsSame e f → IsSame f g → IsSame e g
IsSame-trans e f g s t = record {
  body = s.body ∙ t.body;
  status = s.status ∙ t.status;
  time = s.time ∙ t.time;
}

module _ (K : Codec) where
  module _ (F : Float64) where
    -- An entry under the key that is like e.
    abbrev pub Holds : InMemoryCache F → Bytes → CacheEntry → Type 0
    Holds c key e = (f : CacheEntry) × (lookup key c.entries ≡ some f) × IsSame e f

    erase-Holds :
        (k key : Bytes) (m : Map CacheEntry) (e : CacheEntry)
        → lookup key (erase k m) ≡ some e
        → lookup key m ≡ some e
    erase-Holds k key m e h = ground (arith, lookup-erase k key m)

    make_room-Holds :
        (key : Bytes) (c : InMemoryCache F) (e : CacheEntry)
        → lookup key (make_room K F c).entries ≡ some e
        → lookup key c.entries ≡ some e
    unfolding make_room evict_oldest
    make_room-Holds key c e h = ground (arith, lookup-erase (oldest c.entries [] 0) key c.entries)

    hit-Holds :
        (k key : Bytes) (v e : CacheEntry) (m : Map CacheEntry)
        → lookup k m ≡ some v
        → lookup key (insert k (record v { hit_count = suc v.hit_count }) m) ≡ some e
        → (f : CacheEntry) × (lookup key m ≡ some f) × IsSame e f
    hit-Holds k key v e m found h =
        let v' : CacheEntry = record v { hit_count = suc v.hit_count } in
        elim (Bool-cases (k =s key)) [
          | inl same ↦
              let here : some v' ≡ some e = ground (arith, lookup-insert k key v' m) in
              let eq : v' ≡ e = cc in
              let keys : k ≡ key = ground (arith, =s_iff k key) in
              (v, rw (← keys) found, rw (← eq) record { body = refl; status = refl; time = refl })
          | inr other ↦ (e, ground (arith, lookup-insert k key v' m), IsSame-refl e)
        ]

    pub get-Holds :
        (now : ℕ) (p key : Bytes) (c : InMemoryCache F) (e : CacheEntry)
        → lookup key (get_entry K F now p c).1.entries ≡ some e
        → Holds c key e
    unfolding get_entry hit
    get-Holds now p key c e h = elim (Option-cases (lookup (compute_key K p) c.entries)) [
      | inl out ↦
          let eq : (get_entry K F now p c).1.entries ≡ c.entries = rw (out, get_entry) refl in
          (e, sym (ap (lookup key) eq) ∙ h, IsSame-refl e)
      | inr (v, found) ↦ elim (Bool-cases (expired K F now v c)) [
        | inl old ↦
            let eq : (get_entry K F now p c).1.entries ≡ erase (compute_key K p) c.entries =
              rw (found, get_entry) (rw old refl) in
            (
              e,
              erase-Holds (compute_key K p) key c.entries e (sym (ap (lookup key) eq) ∙ h),
              IsSame-refl e,
            )
        | inr young ↦
            let eq : (get_entry K F now p c).1.entries
                ≡ insert (compute_key K p) (record v { hit_count = suc v.hit_count }) c.entries =
              rw (found, get_entry) (rw young refl) in
            hit-Holds (compute_key K p) key v e c.entries found (sym (ap (lookup key) eq) ∙ h)
      ]
    ]

    pub put-Holds :
        (now : ℕ) (p body key : Bytes) (status : ℤ) (cost : F.Float) (c : InMemoryCache F)
        (e : CacheEntry)
        → lookup key (put_entry K F now p body status cost c).entries ≡ some e
        → Holds c key e
          ⊎ ((compute_key K p ≡ key)
              × (e.response_body ≡ body)
              × (e.status_code ≡ status)
              × (e.cached_at ≡ now))
    unfolding put_entry
    put-Holds now p body key status cost c e h = elim (Bool-cases (compute_key K p =s key)) [
      | inl same ↦
          let fresh : CacheEntry = record {
            response_body = body;
            status_code = status;
            headers = (bytes "X-Tkngate-Cache", bytes "STORED") ∷ [];
            cached_at = now;
            hit_count = 0;
          } in
          let here : some fresh ≡ some e =
            ground (arith, lookup-insert (compute_key K p) key fresh (make_room K F c).entries) in
          let eq : fresh ≡ e = cc in
          inr (
            ground (arith, =s_iff (compute_key K p) key),
            rw (← eq) refl,
            rw (← eq) refl,
            rw (← eq) refl,
          )
      | inr other ↦
          let fresh : CacheEntry = record {
            response_body = body;
            status_code = status;
            headers = (bytes "X-Tkngate-Cache", bytes "STORED") ∷ [];
            cached_at = now;
            hit_count = 0;
          } in
          inl (
            e,
            make_room-Holds key c e (
                ground
                  (arith, lookup-insert (compute_key K p) key fresh (make_room K F c).entries)),
            IsSame-refl e,
          )
    ]
