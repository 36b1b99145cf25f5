-- ===== src/Proxy/Payload/Canonical.antt =====
-- Payloads that differ only in the order of their tools and in the ids of their tool calls are the
-- same to the cache.
use mathlib.Core.List.{map-append}
use tkngate.Base.{◌≡◌, refl, sym, ap, ◌∙◌, some, List, [], ◌∷◌, ◌++◌, map}
use tkngate.Base.Bytes.{Bytes, bytes, ◌=s◌}
use tkngate.Base.Maps.{
  Map, lookup, insert, erase, erase-insert, insert-insert, erase-insert_other, lookup-insert,
}
use tkngate.Proxy.Json.{Json, arr, obj, items, fields, list_of-items, map_of-fields, JsonCodec}
use tkngate.Proxy.Payload.{
  scrub_call, scrub_calls, scrub_message, scrub_tool_call_ids, rewritten, copied, canonical_fields,
  canonicalize_payload, sort_tools_by_name,
}
use tkngate.Proxy.Payload.Sorting.{Reordered, sort-Reordered}

-- A message with another `tool_call_id`, or other `id`s of its tool calls.
pub data Retagged : Json → Json → Type 0 where
  unchanged : (m : Json) → Retagged m m
  answer :
      (m : Map Json) (v w : Json)
      → Retagged
          (obj (fields (insert (bytes "tool_call_id") v m)))
          (obj (fields (insert (bytes "tool_call_id") w m)))
  call :
      (m : Map Json) (before after : List Json) (c : Map Json) (v w : Json)
      → Retagged
          (obj (
            fields (
              insert
                (bytes "tool_calls")
                (arr (items (before ++ obj (fields (insert (bytes "id") v c)) ∷ after)))
                m)))
          (obj (
            fields (
              insert
                (bytes "tool_calls")
                (arr (items (before ++ obj (fields (insert (bytes "id") w c)) ∷ after)))
                m)))
  and_then : (x y z : Json) → Retagged x y → Retagged y z → Retagged x z

abbrev pub AllRetagged : List Json → List Json → Type 0
AllRetagged [] [] = Unit
AllRetagged (x ∷ xs) (y ∷ ys) = Retagged x y × AllRetagged xs ys
AllRetagged _ _ = ⊥

scrub_call-id :
    (c : Map Json) (v : Json)
    → scrub_call (obj (fields (insert (bytes "id") v c))) ≡ obj (fields (erase (bytes "id") c))
unfolding scrub_call
scrub_call-id c v = rw (map_of-fields, erase-insert)

scrub_message-answer :
    (m : Map Json) (v : Json)
    → scrub_message (obj (fields (insert (bytes "tool_call_id") v m)))
      ≡ scrub_message (obj (fields m))
unfolding scrub_message
scrub_message-answer m v = simp (map_of-fields, erase-insert)

-- What is left of a message with tool calls.
scrub_message-calls :
    (m : Map Json) (calls : List Json)
    → scrub_message (obj (fields (insert (bytes "tool_calls") (arr (items calls)) m)))
      ≡ obj (
          fields (
            insert
              (bytes "tool_calls")
              (arr (items (map scrub_call calls)))
              (erase (bytes "tool_call_id") m)))
unfolding scrub_message scrub_calls ◌=s◌
scrub_message-calls m calls =
    let k = bytes "tool_calls" in
    let m' = erase (bytes "tool_call_id") m in
    let v : Json = arr (items calls) in
    let found : lookup k (insert k v m') ≡ some v = lookup-insert k k v m' in
    rw map_of-fields (
      rw (erase-insert_other (bytes "tool_call_id") k v m refl)
        (rw found (rw list_of-items (rw insert-insert refl))))

scrub_message-Retagged : {x y : Json} → Retagged x y → scrub_message x ≡ scrub_message y
scrub_message-Retagged (unchanged m) = refl
scrub_message-Retagged (answer m v w) = scrub_message-answer m v ∙ sym (scrub_message-answer m w)
scrub_message-Retagged (call m before after c v w) =
    let calls = λ (u : Json). before ++ obj (fields (insert (bytes "id") u c)) ∷ after in
    let scrubbed = λ (xs : List Json).
      obj
        (fields (insert (bytes "tool_calls") (arr (items xs)) (erase (bytes "tool_call_id") m))) in
    let same : map scrub_call (calls v) ≡ map scrub_call (calls w) =
      simp (map-append, scrub_call-id) in
    scrub_message-calls m (calls v) ∙ (ap scrubbed same ∙ sym (scrub_message-calls m (calls w)))
scrub_message-Retagged (and_then x y z a b) = scrub_message-Retagged a ∙ scrub_message-Retagged b

-- Scrubbing forgets the ids of tool calls.
scrub-Retagged :
    (xs ys : List Json) → AllRetagged xs ys → scrub_tool_call_ids xs ≡ scrub_tool_call_ids ys
unfolding scrub_tool_call_ids
scrub-Retagged [] [] h = refl
scrub-Retagged [] (y ∷ ys) h = absurd h
scrub-Retagged (x ∷ xs) [] h = absurd h
scrub-Retagged (x ∷ xs) (y ∷ ys) (h, hs) = cc (scrub_message-Retagged h, scrub-Retagged xs ys hs)

-- Two requests to the same model, with the same tool choice and response format, the same messages
-- but for the ids of tool calls, and the same tools but for swaps of tools of different names.
pub record IsSameRequest (f g : Map Json) : Type 0 where
  pub messages : List Json
  pub messages' : List Json
  pub tools : List Json
  pub tools' : List Json
  pub model : lookup (bytes "model") f ≡ lookup (bytes "model") g
  pub tool_choice : lookup (bytes "tool_choice") f ≡ lookup (bytes "tool_choice") g
  pub response_format : lookup (bytes "response_format") f ≡ lookup (bytes "response_format") g
  pub messages_in : lookup (bytes "messages") f ≡ some (arr (items messages))
  pub messages_in' : lookup (bytes "messages") g ≡ some (arr (items messages'))
  pub retagged : AllRetagged messages messages'
  pub tools_in : lookup (bytes "tools") f ≡ some (arr (items tools))
  pub tools_in' : lookup (bytes "tools") g ≡ some (arr (items tools'))
  pub reordered : Reordered tools tools'

copied-none :
    (name : Bytes) (f : Json → Json) (a b m : Map Json)
    → lookup name a ≡ lookup name b
    → copied name f a m ≡ copied name f b m
unfolding copied
copied-none name f a b m e = rw (e, copied) refl

copied-some :
    (name : Bytes) (h : List Json → List Json) (a b m : Map Json) (xs ys : List Json)
    → lookup name a ≡ some (arr (items xs))
    → lookup name b ≡ some (arr (items ys))
    → h xs ≡ h ys
    → copied name (rewritten h) a m ≡ copied name (rewritten h) b m
unfolding copied rewritten
copied-some name h a b m xs ys ea eb e =
    let left : copied name (rewritten h) a m ≡ insert name (arr (items (h xs))) m =
      rw (ea, copied) (rw list_of-items refl) in
    let right : copied name (rewritten h) b m ≡ insert name (arr (items (h ys))) m =
      rw (eb, copied) (rw list_of-items refl) in
    left ∙ (ap (λ r. insert name (arr (items r)) m) e ∙ sym right)

canonical_fields-same :
    (f g : Map Json) → IsSameRequest f g → canonical_fields f ≡ canonical_fields g
unfolding canonical_fields
canonical_fields-same f g s =
    let id = λ (v : Json). v in
    let a = copied (bytes "model") id g [] in
    let b = copied (bytes "messages") (rewritten scrub_tool_call_ids) g a in
    let c = copied (bytes "tools") (rewritten sort_tools_by_name) g b in
    let d = copied (bytes "tool_choice") id g c in
    rw (copied-none (bytes "model") id f g [] s.model, canonical_fields)
      (rw
        (copied-some (bytes "messages") scrub_tool_call_ids f g a s.messages s.messages'
          s.messages_in s.messages_in' (scrub-Retagged s.messages s.messages' s.retagged))
        (rw
          (copied-some (bytes "tools") sort_tools_by_name f g b s.tools s.tools' s.tools_in
            s.tools_in' (sort-Reordered s.reordered))
          (rw (copied-none (bytes "tool_choice") id f g c s.tool_choice)
            (copied-none (bytes "response_format") id f g d s.response_format))))

-- The cache sees two such requests as one, if the codec can write what is left of them.
pub canonicalize_payload-same :
    (K : JsonCodec) (p q b : Bytes) (f g : Map Json)
    → K.unmarshal p ≡ some f
    → K.unmarshal q ≡ some g
    → IsSameRequest f g
    → K.marshal (canonical_fields f) ≡ some b
    → canonicalize_payload K p ≡ canonicalize_payload K q
unfolding canonicalize_payload
canonicalize_payload-same K p q b f g read_p read_q s written =
    let same = canonical_fields-same f g s in
    let written' : K.marshal (canonical_fields g) ≡ some b = rw (← same) written in
    rw (read_p, read_q, canonicalize_payload) (rw same (rw written' refl))
