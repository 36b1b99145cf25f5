-- ===== src/Proxy/Payload.antt =====
-- internal/proxy/middleware.go: reading and rewriting the payload of a request. `Marshal` writes the
-- keys of a map in sorted order, so the order of a map here does not matter to what is written.
pub mod Sorting
pub mod Canonical
use tkngate.Base.{
  Bool, true, false, Option, none, some, ◌>>=◌, List, [], ◌∷◌, map, length, ltb, ◌==◌, ◌||◌, ◌&&◌,
  if◌then◌else◌,
}
use tkngate.Base.Bytes.{Bytes, bytes}
use tkngate.Base.Maps.{Map, lookup, insert, erase}
use tkngate.Proxy.Json.{
  Json, str, arr, obj, items, list_of, fields, map_of, as_string, as_list, as_map, JsonCodec,
}

-- `a < b` of Go on strings.
infix 50 ◌<s◌
unfoldable pub ◌<s◌ : Bytes → Bytes → Bool
[] <s [] = false
[] <s (y ∷ ys) = true
(x ∷ xs) <s [] = false
(x ∷ xs) <s (y ∷ ys) = ltb x y || (x == y && (xs <s ys))

-- `value.field.(string)`, with the empty string when the assertion fails.
unfoldable pub or_empty : Option Bytes → Bytes
or_empty none = []
or_empty (some b) = b

unfoldable pub extract_tool_function_name : Json → Bytes
unfolding or_empty
extract_tool_function_name tool = or_empty (do
  tool_map ← as_map tool
  value ← lookup (bytes "function") tool_map
  function ← as_map value
  name ← lookup (bytes "name") function
  as_string name)

-- One round of the insertion sort of `sortToolsByName`: the sorted part, last tool first, is passed
-- until a tool that is not greater than the key.
unfoldable pub shift : Json → List Json → List Json
shift key [] = key ∷ []
shift key (x ∷ sorted) =
    if extract_tool_function_name key <s extract_tool_function_name x
    then x ∷ shift key sorted
    else key ∷ x ∷ sorted

unfoldable pub insertion_sort : List Json → List Json → List Json
insertion_sort sorted [] = sorted
insertion_sort sorted (key ∷ tools) = insertion_sort (shift key sorted) tools

-- From last first to first first.
unfoldable pub turn : List Json → List Json → List Json
turn [] done = done
turn (x ∷ xs) done = turn xs (x ∷ done)

unfoldable pub sort_tools_by_name : List Json → List Json
sort_tools_by_name tools = turn (insertion_sort [] tools) []

-- The `id` of one tool call is dropped.
unfoldable pub scrub_call : Json → Json
scrub_call (obj call) = obj (fields (erase (bytes "id") (map_of call)))
scrub_call call = call

unfoldable pub scrub_calls : Option Json → Map Json → Map Json
scrub_calls (some (arr calls)) message =
    insert (bytes "tool_calls") (arr (items (map scrub_call (list_of calls)))) message
scrub_calls _ message = message

unfoldable pub scrub_message : Json → Json
scrub_message (obj message) =
    let scrubbed = erase (bytes "tool_call_id") (map_of message) in
    obj (fields (scrub_calls (lookup (bytes "tool_calls") scrubbed) scrubbed))
scrub_message message = message

unfoldable pub scrub_tool_call_ids : List Json → List Json
scrub_tool_call_ids messages = map scrub_message messages

-- A field of `canonical`: a list is rewritten, any other value is copied.
unfoldable pub rewritten : (List Json → List Json) → Json → Json
rewritten f (arr xs) = arr (items (f (list_of xs)))
rewritten f v = v

unfoldable pub copied : Bytes → (Json → Json) → Map Json → Map Json → Map Json
copied name f source canonical = elim (lookup name source) [
  | none ↦ canonical
  | some v ↦ insert name (f v) canonical
]

unfoldable pub canonical_fields : Map Json → Map Json
canonical_fields source =
    copied (bytes "response_format") (λ v. v) source
      (copied (bytes "tool_choice") (λ v. v) source
        (copied (bytes "tools") (rewritten sort_tools_by_name) source (
          copied (bytes "messages") (rewritten scrub_tool_call_ids) source
            (copied (bytes "model") (λ v. v) source []))))

module _ (K : JsonCodec) where
  unfoldable pub canonicalize_payload : Bytes → Bytes
  canonicalize_payload payload = elim (K.unmarshal payload) [
    | none ↦ payload
    | some source ↦ elim (K.marshal (canonical_fields source)) [ none ↦ payload | some b ↦ b ]
  ]

  unfoldable pub extract_model : Bytes → Bytes
  extract_model payload =
      elim (do
        source ← K.unmarshal payload
        model ← lookup (bytes "model") source
        as_string model) [ none ↦ bytes "unknown" | some m ↦ m ]

  -- `none` is the panic of a write into a nil map.
  unfoldable pub replace_model : Bytes → Bytes → Option Bytes
  replace_model payload model = elim (K.unmarshal payload) [
    | none ↦ some payload
    | some source ↦
        if K.leaves_nil payload
        then none
        else elim (K.marshal (insert (bytes "model") (str model) source)) [
          | none ↦ some payload
          | some b ↦ some b
        ]
  ]

  last : List Json → Option Json
  last [] = none
  last (x ∷ []) = some x
  last (x ∷ y ∷ xs) = last (y ∷ xs)

  unfoldable pub extract_prompt_string : Bytes → Bytes
  unfolding last or_empty
  extract_prompt_string payload = or_empty (do
    source ← K.unmarshal payload
    value ← lookup (bytes "messages") source
    messages ← as_list value
    message ← last messages
    message_map ← as_map message
    content ← lookup (bytes "content") message_map
    as_string content)

  -- `compress` is internal/compressor.
  module _ (compress : Bytes → Bytes) where
    compress_content : Map Json → Bytes → Option Json
    compress_content message content =
        if ltb 100 (length content) && ltb (length (compress content)) (length content)
        then some (obj (fields (insert (bytes "content") (str (compress content)) message)))
        else none

    -- The message with a shorter content; `none` if it stays as it is.
    unfoldable pub compress_message : Json → Option Json
    unfolding compress_content
    compress_message m = do
      message ← as_map m
      value ← lookup (bytes "content") message
      content ← as_string value
      compress_content message content

    unfoldable pub compress_messages : List Json → List Json × Bool
    compress_messages [] = ([], false)
    compress_messages (m ∷ ms) =
        let rest = compress_messages ms in
        elim (compress_message m) [ none ↦ (m ∷ rest.0, rest.1) | some m' ↦ (m' ∷ rest.0, true) ]

    unfoldable pub with_messages : Bytes → Map Json → List Json × Bool → Bytes
    with_messages payload source (messages, modified) =
        if modified
        then elim (K.marshal (insert (bytes "messages") (arr (items messages)) source)) [
          | none ↦ payload
          | some b ↦ b
        ]
        else payload

    unfoldable pub messages_of : Bytes → Option (Map Json × List Json)
    messages_of payload = do
      source ← K.unmarshal payload
      value ← lookup (bytes "messages") source
      messages ← as_list value
      some (source, messages)

    unfoldable pub compress_payload : Bytes → Bytes
    unfolding with_messages messages_of
    compress_payload payload = elim (messages_of payload) [
      | none ↦ payload
      | some (source, messages) ↦ with_messages payload source (compress_messages messages)
    ]
