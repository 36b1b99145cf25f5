-- ===== src/Cache/Semantic/Capacity.antt =====
-- Maps whose keys are not empty, and the key that the eviction takes.
use tkngate.Base.{
  ℕ, ◌≤◌, ◌<◌, ◌≡◌, ◌≢◌, ◌⊎◌, inl, inr, refl, true, false, ◌||◌, some, [], ◌∷◌, length, ltb,
  if◌then◌else◌, arith, All, Bool-cases,
}
use tkngate.Base.Bytes.{Bytes, ◌=s◌, =s_refl}
use tkngate.Base.Maps.{Map, lookup, insert, erase, length-erase-le}
use tkngate.Cache.Semantic.{CacheEntry, oldest}

-- Every key is a key: not the empty string.
abbrev pub AllKeyed : Map CacheEntry → Type 0
AllKeyed m = All (λ e. e.0 ≢ []) m

abbrev pub IsPresent : Bytes → Map CacheEntry → Type 0
IsPresent k m = (v : CacheEntry) × (lookup k m ≡ some v)

pub length-erase-lt :
    (k : Bytes) (m : Map CacheEntry) → IsPresent k m → length (erase k m) < length m
unfolding erase lookup
length-erase-lt k [] (v, e) = absurd (ground arith)
length-erase-lt k ((j, w) ∷ m) (v, e) = elim (Bool-cases (j =s k)) [
  | inl same ↦ rw same (let h = length-erase-le k m in omega arith)
  | inr other ↦ rw other (let h = length-erase-lt k m (v, ground arith) in omega arith)
]

pub length-insert-present :
    (k : Bytes) (v : CacheEntry) (m : Map CacheEntry)
    → IsPresent k m
    → length (insert k v m) ≡ length m
unfolding insert lookup
length-insert-present k v [] (w, e) = absurd (ground arith)
length-insert-present k v ((j, u) ∷ m) (w, e) = elim (Bool-cases (j =s k)) [
  | inl same ↦ rw same refl
  | inr other ↦ rw other (let h = length-insert-present k v m (w, ground arith) in omega arith)
]

pub insert-AllKeyed :
    (k : Bytes) (v : CacheEntry) (m : Map CacheEntry)
    → k ≢ []
    → AllKeyed m
    → AllKeyed (insert k v m)
unfolding insert
insert-AllKeyed k v [] h a = (h, tt)
insert-AllKeyed k v ((j, w) ∷ m) h (x, a) =
    elim (j =s k) as (λ b. AllKeyed (if b then (j, v) ∷ m else (j, w) ∷ insert k v m)) [
      | true ↦ (x, a)
      | false ↦ (x, insert-AllKeyed k v m h a)
    ]

pub erase-AllKeyed : (k : Bytes) (m : Map CacheEntry) → AllKeyed m → AllKeyed (erase k m)
unfolding erase
erase-AllKeyed k [] a = tt
erase-AllKeyed k ((j, w) ∷ m) (x, a) =
    elim (j =s k) as (λ b. AllKeyed (if b then erase k m else (j, w) ∷ erase k m)) [
      | true ↦ erase-AllKeyed k m a
      | false ↦ (x, erase-AllKeyed k m a)
    ]

IsPresent-later :
    (k j : Bytes) (w : CacheEntry) (m : Map CacheEntry) → IsPresent k m → IsPresent k ((j, w) ∷ m)
unfolding lookup
IsPresent-later k j w m (v, e) = elim (Bool-cases (j =s k)) [
  | inl same ↦ (w, rw same refl)
  | inr other ↦ (v, rw other e)
]

IsPresent-here : (k : Bytes) (w : CacheEntry) (m : Map CacheEntry) → IsPresent k ((k, w) ∷ m)
unfolding lookup
IsPresent-here k w m = (w, rw (=s_refl k) refl)

-- Once a key is found, the loop ends with it or with a key of the rest.
oldest_after :
    (m : Map CacheEntry) (key : Bytes) (time : ℕ)
    → key ≢ []
    → AllKeyed m
    → (oldest m key time ≢ []) × ((oldest m key time ≡ key) ⊎ IsPresent (oldest m key time) m)
unfolding oldest
oldest_after [] key time h a = (h, inl refl)
oldest_after ((k, v) ∷ m) key time h (x, a) =
    elim (Bool-cases ((key =s []) || ltb v.cached_at time)) [
      | inl older ↦ rw older (
          let (full, place) = oldest_after m k v.cached_at x a in
          (
            full,
            inr (elim place [
              | inl same ↦ rw same (IsPresent-here k v m)
              | inr later ↦ IsPresent-later (oldest m k v.cached_at) k v m later
            ]),
          ))
      | inr younger ↦ rw younger (
          let (full, place) = oldest_after m key time h a in
          (
            full,
            elim place [
              | inl same ↦ inl same
              | inr later ↦ inr (IsPresent-later (oldest m key time) k v m later)
            ],
          ))
    ]

-- With any entry at all, one is found.
pub oldest_found :
    (m : Map CacheEntry)
    → AllKeyed m
    → 1 ≤ length m
    → (oldest m [] 0 ≢ []) × IsPresent (oldest m [] 0) m
unfolding oldest ◌=s◌
oldest_found [] a h = absurd (omega arith)
oldest_found ((k, v) ∷ m) (x, a) h =
    let (full, place) = oldest_after m k v.cached_at x a in
    (
      full,
      elim place [
        | inl same ↦ rw same (IsPresent-here k v m)
        | inr later ↦ IsPresent-later (oldest m k v.cached_at) k v m later
      ],
    )
