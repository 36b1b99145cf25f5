-- ===== src/Cache/Semantic.antt =====
-- internal/cache/semantic.go: the cache in memory. The calls are taken one after another. A time is
-- a number of seconds. The JSON codec and SHA-256 in hexadecimal digits are parameters; `Json` is
-- what the codec makes of a value.
pub mod Calls
pub mod Capacity
pub mod Bound
pub mod Kept
pub mod Served
pub mod Keys
pub mod Renewal
use tkngate.Base.{
  ℕ, suc, zero, ◌+◌, Bool, true, false, ◌||◌, Option, none, some, List, [], ◌∷◌, length, ltb,
  if◌then◌else◌,
}
use tkngate.Base.Int.{ℤ, pos, ◌-ℤ◌, leb_ℤ, ltb_ℤ}
use tkngate.Base.Bytes.{Bytes, bytes, ◌=s◌}
use tkngate.Base.Maps.{Map, lookup, insert, erase}
use tkngate.Float64.{Float64, whole}

pub record CacheEntry : Type 0 where
  pub response_body : Bytes
  pub status_code : ℤ
  pub headers : Map Bytes
  pub cached_at : ℕ
  pub hit_count : ℕ

pub record InMemoryCache (F : Float64) : Type 0 where
  pub entries : Map CacheEntry
  pub max_size : ℤ
  pub ttl : ℤ
  pub hits : ℕ
  pub misses : ℕ
  pub savings : F.Float

-- encoding/json and crypto/sha256.
pub record Codec : Type 1 where
  pub Json : Type 0
  pub unmarshal : Bytes → Option (Map Json)
  pub marshal : Map Json → Option Bytes
  pub digest : Bytes → Bytes

-- The entry that `evictOldest` has found so far; the empty key says none.
unfoldable pub oldest : Map CacheEntry → Bytes → ℕ → Bytes
oldest [] key time = key
oldest ((k, v) ∷ m) key time =
    if (key =s []) || ltb v.cached_at time then oldest m k v.cached_at else oldest m key time

module _ (K : Codec) where
  -- `if m, ok := data[name]; ok { canonical[name] = m }`
  unfoldable pub copy_field : Map K.Json → Bytes → Map K.Json → Map K.Json
  copy_field fields name canonical = elim (lookup name fields) [
    | none ↦ canonical
    | some v ↦ insert name v canonical
  ]

  unfoldable pub canonical : Map K.Json → Map K.Json
  unfolding copy_field
  canonical fields = copy_field fields (bytes "response_format") (
      copy_field fields (bytes "tool_choice") (
        copy_field fields (bytes "tools")
          (copy_field fields (bytes "messages") (copy_field fields (bytes "model") []))))

  unfoldable pub compute_key : Bytes → Bytes
  unfolding canonical
  compute_key payload = elim (K.unmarshal payload) [
    | none ↦ K.digest payload
    | some fields ↦ elim (K.marshal (canonical fields)) [
      | none ↦ K.digest payload
      | some b ↦ K.digest b
    ]
  ]

  module _ (F : Float64) where
    -- `InitCache` without a Redis URI.
    unfoldable pub init_cache : ℤ → ℤ → InMemoryCache F
    init_cache max_size ttl_seconds = record {
      entries = [];
      max_size = if leb_ℤ max_size (pos 0) then pos 512 else max_size;
      ttl = if leb_ℤ ttl_seconds (pos 0) then pos 300 else ttl_seconds;
      hits = 0;
      misses = 0;
      savings = whole F 0;
    }

    unfoldable pub evict_oldest : InMemoryCache F → InMemoryCache F
    unfolding oldest
    evict_oldest c =
        let key = oldest c.entries [] 0 in
        if key =s [] then c else record c { entries = erase key c.entries }

    unfoldable pub expired : ℕ → CacheEntry → InMemoryCache F → Bool
    expired now e c = ltb_ℤ c.ttl (pos now -ℤ pos e.cached_at)

    unfoldable pub hit : Bytes → CacheEntry → InMemoryCache F → Option CacheEntry × InMemoryCache F
    hit key e c =
        let e' = record e { hit_count = suc e.hit_count } in
        (some e', record c { entries = insert key e' c.entries; hits = suc c.hits })

    unfoldable pub get_entry : ℕ → Bytes → InMemoryCache F → Option CacheEntry × InMemoryCache F
    unfolding compute_key expired hit
    get_entry now payload c =
        let key = compute_key payload in
        elim (lookup key c.entries) [
          | none ↦ (none, record c { misses = suc c.misses })
          | some e ↦
              if expired now e c
              then (none, record c { entries = erase key c.entries; misses = suc c.misses })
              else hit key e c
        ]

    -- `if len(c.entries) >= c.maxSize { c.evictOldest() }`
    unfoldable pub make_room : InMemoryCache F → InMemoryCache F
    unfolding evict_oldest
    make_room c = if leb_ℤ c.max_size (pos (length c.entries)) then evict_oldest c else c

    unfoldable pub put_entry : ℕ → Bytes → Bytes → ℤ → F.Float → InMemoryCache F → InMemoryCache F
    unfolding compute_key make_room
    put_entry now payload body status cost c =
        let c' = make_room c in
        record c' {
          entries =
              insert (compute_key payload)
                (record {
                  response_body = body;
                  status_code = status;
                  headers = (bytes "X-Tkngate-Cache", bytes "STORED") ∷ [];
                  cached_at = now;
                  hit_count = 0;
                })
                c'.entries;
          savings = F.add c'.savings cost;
        }

    unfoldable pub clear : InMemoryCache F → InMemoryCache F
    clear c = record c { entries = []; hits = 0; misses = 0; savings = whole F 0 }

    pub stats : InMemoryCache F → ℕ × ℕ × ℕ × F.Float
    stats c = (c.hits, c.misses, length c.entries, c.savings)
