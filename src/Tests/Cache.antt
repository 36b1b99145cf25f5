-- ===== src/Tests/Cache.antt =====
-- The cache with room for two entries, over a codec that knows three payloads.
use tkngate.Base.{
  ◌≡◌, ◌≢◌, refl, sym, ◌++◌, Option, none, some, List, [], ◌∷◌, length, if◌then◌else◌, arith,
}
use tkngate.Base.Int.{pos, ◌-ℤ◌, ◌≤ℤ◌}
use tkngate.Base.Bytes.{Bytes, bytes, ◌=s◌}
use tkngate.Base.Maps.{Map, lookup, insert, erase}
use tkngate.Float64.Scaled.{scaled}
use tkngate.Cache.Semantic.{
  CacheEntry, Codec, canonical, copy_field, compute_key, init_cache, get_entry, put_entry, oldest,
  evict_oldest, expired, hit, make_room,
}
use tkngate.Cache.Semantic.Calls.{Call, get, put, call, run_calls}
use tkngate.Cache.Semantic.Bound.{run_calls-bounded}
use tkngate.Cache.Semantic.Served.{IsStored, served_was_put}
use tkngate.Cache.Semantic.Keys.{compute_key-fields}
use tkngate.Cache.Semantic.Renewal.{put_then_get}

abbrev fields : Bytes → Bytes → Map Bytes
fields messages temperature =
    (bytes "model", bytes "m")
    ∷ (bytes "temperature", temperature)
    ∷ (bytes "messages", messages)
    ∷ []

abbrev joined : Map Bytes → Bytes
joined [] = []
joined ((k, v) ∷ m) = k ++ v ++ joined m

abbrev decode : Bytes → Option (Map Bytes)
decode b =
    if b =s bytes "p"
    then some (fields (bytes "hi") (bytes "0"))
    else if b =s bytes "q"
    then some (fields (bytes "hi") (bytes "1"))
    else if b =s bytes "r"
    then some (fields (bytes "bye") (bytes "0"))
    else none

abbrev codec : Codec
codec = record {
  Json = Bytes;
  unmarshal = decode;
  marshal = λ m. some (joined m);
  digest = λ b. 100 ∷ b;
}

digest_full : (b : Bytes) → codec.digest b ≢ []
digest_full b e = absurd (ground arith)

abbrev calls : List (Call scaled)
calls =
    put 10 (bytes "p") (bytes "hello") (pos 200) (pos 5)
    ∷ get 12 (bytes "q")
    ∷ put 13 (bytes "x") (bytes "raw") (pos 200) (pos 5)
    ∷ put 14 (bytes "r") (bytes "see you") (pos 201) (pos 5)
    ∷ []

run_calls-bounded_example :
    pos (length (run_calls codec scaled (init_cache codec scaled (pos 2) (pos 0)) calls).entries)
    ≤ℤ (init_cache codec scaled (pos 2) (pos 0)).max_size
run_calls-bounded_example = run_calls-bounded codec digest_full scaled (pos 2) (pos 0) calls

abbrev served : CacheEntry
served = record {
  response_body = bytes "see you";
  status_code = pos 201;
  headers = (bytes "X-Tkngate-Cache", bytes "STORED") ∷ [];
  cached_at = 14;
  hit_count = 1;
}

r_served :
    (get_entry codec scaled 20
      (bytes "r")
      (run_calls codec scaled (init_cache codec scaled (pos 2) (pos 0)) calls)).0
    ≡ some served
unfolding get_entry run_calls call init_cache put_entry compute_key canonical copy_field oldest
    evict_oldest expired hit make_room lookup insert erase ◌=s◌ ◌-ℤ◌
r_served = refl

served_was_put_example :
    let c = run_calls codec scaled (init_cache codec scaled (pos 2) (pos 0)) calls in
    IsStored codec scaled calls (compute_key codec (bytes "r")) served
    × ((pos 20 -ℤ pos served.cached_at) ≤ℤ c.ttl)
served_was_put_example =
    served_was_put codec scaled (pos 2) (pos 0) calls 20 (bytes "r") served r_served

p_read : codec.unmarshal (bytes "p") ≡ some (fields (bytes "hi") (bytes "0"))
unfolding ◌=s◌
p_read = refl

q_read : codec.unmarshal (bytes "q") ≡ some (fields (bytes "hi") (bytes "1"))
unfolding ◌=s◌
q_read = refl

p_written :
    codec.marshal (canonical codec (fields (bytes "hi") (bytes "0")))
    ≡ some (bytes "modelmmessageshi")
unfolding canonical copy_field lookup insert ◌=s◌
p_written = refl

compute_key-fields_example : compute_key codec (bytes "p") ≡ compute_key codec (bytes "q")
unfolding lookup ◌=s◌
compute_key-fields_example =
    compute_key-fields codec (bytes "p") (bytes "q") (fields (bytes "hi") (bytes "0"))
      (fields (bytes "hi") (bytes "1")) (bytes "modelmmessageshi") p_read q_read refl refl refl refl
      refl p_written

put_then_get_example :
    (e : CacheEntry) × ((get_entry codec scaled 300 (bytes "q") (
        put_entry codec scaled 10
          (bytes "p")
          (bytes "hello")
          (pos 200)
          (pos 5)
          (init_cache codec scaled (pos 2) (pos 0)))).0
      ≡ some e)
    × (e.response_body ≡ bytes "hello")
    × (e.status_code ≡ pos 200)
    × (e.hit_count ≡ 1)
unfolding init_cache ◌-ℤ◌
put_then_get_example =
    put_then_get codec scaled 10 300 (bytes "p") (bytes "q") (bytes "hello") (pos 200) (pos 5)
      (init_cache codec scaled (pos 2) (pos 0)) (sym compute_key-fields_example) (omega arith)
