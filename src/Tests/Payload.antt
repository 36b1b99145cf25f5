-- ===== src/Tests/Payload.antt =====
-- Two payloads that differ in the id of a tool call and in the order of two tools. A codec with two
-- texts reads them.
use tkngate.Base.{◌≡◌, ◌≢◌, refl, arith, false, some, List, [], ◌∷◌, if◌then◌else◌}
use tkngate.Base.Bytes.{Bytes, bytes, ◌=s◌}
use tkngate.Base.Maps.{Map, lookup, insert}
use tkngate.Proxy.Json.{Json, str, arr, obj, items, fields, JsonCodec}
use tkngate.Proxy.Payload.{canonicalize_payload, extract_tool_function_name}
use tkngate.Proxy.Payload.Sorting.{swap}
use tkngate.Proxy.Payload.Canonical.{IsSameRequest, answer, canonicalize_payload-same}

abbrev tool : Bytes → Json
tool name = obj (fields ((bytes "function", obj (fields ((bytes "name", str name) ∷ []))) ∷ []))

abbrev tools_of : List Json
tools_of = tool (bytes "search") ∷ tool (bytes "add") ∷ []

abbrev reply : Map Json
reply = (bytes "content", str (bytes "4")) ∷ []

abbrev one_message : Bytes → List Json
one_message id = obj (fields (insert (bytes "tool_call_id") (str id) reply)) ∷ []

abbrev request : Bytes → List Json → Map Json
request id tools =
    (bytes "model", str (bytes "gpt-4o"))
    ∷ (bytes "messages", arr (items (one_message id)))
    ∷ (bytes "tools", arr (items tools))
    ∷ []

abbrev turned : List Json
turned = tool (bytes "add") ∷ tool (bytes "search") ∷ []

abbrev two_texts : JsonCodec
two_texts = record {
  unmarshal = λ b.
      if b =s bytes "p"
      then some (request (bytes "call_1") tools_of)
      else some (request (bytes "call_2") turned);
  leaves_nil = λ b. false;
  marshal = λ m. some (bytes "c");
}

different :
    extract_tool_function_name (tool (bytes "search"))
    ≢ extract_tool_function_name (tool (bytes "add"))
unfolding extract_tool_function_name lookup ◌=s◌
different e = absurd (ground arith)

same_request : IsSameRequest (request (bytes "call_1") tools_of) (request (bytes "call_2") turned)
unfolding lookup ◌=s◌
same_request = record {
  messages = one_message (bytes "call_1");
  messages' = one_message (bytes "call_2");
  tools = tools_of;
  tools' = turned;
  model = refl;
  tool_choice = refl;
  response_format = refl;
  messages_in = refl;
  messages_in' = refl;
  retagged = (answer reply (str (bytes "call_1")) (str (bytes "call_2")), tt);
  tools_in = refl;
  tools_in' = refl;
  reordered = swap [] (tool (bytes "search")) (tool (bytes "add")) [] different;
}

reads_p : two_texts.unmarshal (bytes "p") ≡ some (request (bytes "call_1") tools_of)
unfolding ◌=s◌
reads_p = refl

reads_q : two_texts.unmarshal (bytes "q") ≡ some (request (bytes "call_2") turned)
unfolding ◌=s◌
reads_q = refl

canonicalize_payload-same_example :
    canonicalize_payload two_texts (bytes "p") ≡ canonicalize_payload two_texts (bytes "q")
canonicalize_payload-same_example =
    canonicalize_payload-same two_texts (bytes "p") (bytes "q") (bytes "c")
      (request (bytes "call_1") tools_of) (request (bytes "call_2") turned) reads_p reads_q
      same_request refl
