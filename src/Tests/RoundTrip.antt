-- ===== src/Tests/RoundTrip.antt =====
-- A whole round trip: a request with a good key to a provider that cannot be reached.
use tkngate.Base.{ℕ, suc, ◌≡◌, ◌≢◌, refl, arith, true, false, none, some, [], ◌∷◌}
use tkngate.Base.Int.{pos}
use tkngate.Base.Bytes.{bytes, ◌=s◌}
use tkngate.Float64.Scaled.{scaled}
use tkngate.Base.Maps.{lookup, insert}
use tkngate.Budget.Ledger.{is_set, get_total_spend}
use tkngate.Budget.Ledger.Accounts.{get_virtual_keys, get_organizations}
use tkngate.Budget.Guard.{
  same_zone, status_of, zone_of, threshold, check_budget, check_virtual_key_budget,
}
use tkngate.Limiter.{allow, bucket_of, fresh}
use tkngate.Base.Text.{contains, has_prefix}
use tkngate.Waf.{known_prompt_injections, detect_jailbreak, redact_pii, redact, pii_rules}
use tkngate.Proxy.Streaming.{strip_prefix}
use tkngate.Proxy.Payload.{extract_model, extract_prompt_string}
use tkngate.Proxy.Json.{JsonCodec, str, arr, obj, items, fields}
use tkngate.Tokenizer.{count}
use tkngate.Cache.Semantic.{Codec}
use tkngate.Mesh.Moderation.{Moderation, check_moderation}
use tkngate.Proxy.Admission.{
  Gate, Identity, auth_header, provider_of, virtual_key, key_matches, rbac_allows, split_commas,
  trim_space, org_spent_out, by_zone, admit, caller_of, get,
}
use tkngate.Proxy.Capture.{
  CaptureConfig, Input, Screen, downgrade, compressed, rewrite, moderated_rewrite, capture,
}
use tkngate.Proxy.Retry.{
  Response, Request, Network, prepare, transmit, receive, one_round, retry, execute,
}
use tkngate.Proxy.RoundTrip.{Setup, Shared, Course, round_trip}
use tkngate.Proxy.RoundTrip.Gated.{IsMeter, IsCleared, round_trip-IsCleared}
use tkngate.Budget.Models.{green}
use tkngate.Proxy.RoundTrip.Charged.{IsApart}
use tkngate.Tests.Admission.{tokens, open_hash, all_run, budget, h2, ledger, gate, alone, limits}
use tkngate.Tests.Screening.{quiet, ascii, settings, waf}

-- A moderation that finds every prompt safe.
abbrev lenient : Moderation
lenient = record {
  enabled = true;
  api_key = bytes "k";
  marshal_input = λ p. some p;
  post = λ k b. some (200, b);
  decode_results = λ b. some (false ∷ []);
}

-- Every body is a conversation of one message, the body itself.
abbrev prompting : JsonCodec
prompting = record {
  unmarshal = λ b.
      some
        ((bytes "messages", arr (items (obj (fields ((bytes "content", str b) ∷ [])) ∷ []))) ∷ []);
  leaves_nil = λ b. false;
  marshal = λ m. none;
}

-- The firewall and the moderation are on.
abbrev guarded : CaptureConfig scaled
guarded = record settings { waf = waf; moderated = true }

-- The state, with the number of requests that were sent.
record Proc : Type 0 where
  at_gate : Gate scaled tokens open_hash
  at_screen : Screen scaled prompting quiet ascii (λ b. b) (check_moderation lenient) guarded
  asked : ℕ

abbrev unreachable : Network
unreachable = record {
  World = Proc;
  has_pool = false;
  p2p_enabled = false;
  next_key = λ p s n w. (none, w);
  offload = λ p m s n b w. (none, w);
  round_trip = λ r w. (none, record w { asked = suc w.asked });
  count = λ b m. pos 7;
}

abbrev no_codec : Codec
no_codec = record { Json = Unit; unmarshal = λ b. none; marshal = λ m. none; digest = λ b. b }

abbrev setup : Setup
setup = record {
  float = scaled;
  rate = tokens;
  verifier = open_hash;
  budget = budget;
  cluster = alone;
  limits = limits;
  codec = prompting;
  cache_codec = no_codec;
  engine = quiet;
  unicode = ascii;
  compress = λ b. b;
  moderation = lenient;
  capture = guarded;
  retry = record { fallback_provider = []; anthropic_key = none };
  network = unreachable;
  usage = λ b. none;
  decrypt = λ b. none;
  free_rider_limit = pos 100;
}

abbrev shared : Shared setup
shared = record {
  gate = λ w. w.at_gate;
  set_gate = λ g w. record w { at_gate = g };
  screen = λ w. w.at_screen;
  set_screen = λ s w. record w { at_screen = s };
  cache = λ w. none;
  set_cache = λ c w. w;
  engine = λ w. record { current_index = []; session_usage = [] };
  set_engine = λ e w. w;
}

abbrev course : Course setup
course = record {
  queries = all_run;
  runs = record { insert_row = true; session_row = true; key_row = true; organization_row = true };
  run_slash = true;
  run_success = true;
  run_pool = true;
  run_quota = true;
  now = 5;
}

abbrev start : Proc
start = record {
  at_gate = gate;
  at_screen = record { custom_blocklist = []; reputation = none };
  asked = 0;
}

abbrev request : Request
request = record {
  provider = bytes "groq";
  host = bytes "api.groq.com";
  path = bytes "/v1/chat/completions";
  headers =
      (bytes "X-Tkngate-Provider", bytes "groq")
      ∷ (bytes "Authorization", bytes "Bearer tkngate-sk-2")
      ∷ [];
  body = [];
  was_failover = false;
}

abbrev meter : IsMeter setup shared course (λ w. w.asked)
meter = record { gates = λ g w. refl; screens = λ s w. refl; caches = λ c w. refl }

asked_once : (round_trip setup shared course (some (bytes "hi")) request start).1.asked ≡ 1
unfolding round_trip admit check_budget get_total_spend same_zone status_of zone_of threshold
    virtual_key strip_prefix auth_header is_set get_virtual_keys key_matches ◌=s◌ rbac_allows
    split_commas trim_space provider_of org_spent_out get_organizations by_zone check_moderation
    extract_prompt_string caller_of get known_prompt_injections contains has_prefix
    check_virtual_key_budget allow bucket_of fresh lookup insert capture detect_jailbreak redact_pii
    pii_rules redact moderated_rewrite rewrite downgrade compressed extract_model execute retry
    one_round prepare transmit receive
asked_once = refl

request-key : virtual_key (auth_header (caller_of request.headers)) ≡ some h2
unfolding virtual_key auth_header is_set strip_prefix caller_of get lookup ◌=s◌
request-key = refl

was_asked : (round_trip setup shared course (some (bytes "hi")) request start).1.asked ≢ 0
was_asked e = absurd (ground (arith, asked_once))

round_trip-IsCleared_example :
    IsCleared setup shared course (caller_of request.headers) h2 ledger (bytes "hi") (record start {
      at_gate =
          (admit scaled tokens open_hash budget all_run alone limits 5
            (caller_of request.headers)
            gate).1;
    })
round_trip-IsCleared_example =
    round_trip-IsCleared setup shared course (λ w. w.asked) meter h2 (bytes "hi") ledger request
      start refl request-key refl was_asked

abbrev apart : IsApart setup shared course
apart = record { gates = λ g w. refl; screens = λ s w. refl; caches = λ c w. refl }

abbrev by_h2 : Identity
by_h2 = record { key_hash = h2; session_id = bytes "agent"; zone = green }

abbrev sent : Input
sent = record { body = bytes "hi"; model = bytes "gpt-4o"; pii_flagged = false }

abbrev reply : Response
reply = record { status_code = 200; headers = []; body = bytes "hello" }
