-- ===== src/Tests/Keys.antt =====
-- A virtual key that is drawn, and a control plane without https.
use tkngate.Base.{◌≡◌, refl, true, none, some, [], ◌∷◌, ◌++◌}
use tkngate.Base.Bytes.{Bytes, bytes, ◌=s◌, =s_refl}
use tkngate.Float64.Scaled.{scaled}
use tkngate.Proxy.Admission.{Verifier, blocked, invalid_key, admit_key, virtual_key, verify_key}
use tkngate.Proxy.Keys.{VirtualKey, KeySource, generate_virtual_key, generate_virtual_key-verifies}
use tkngate.Proxy.Cloud.{
  Url, CloudConfig, CloudNetwork, allowed_cloud_scheme, cloud_verifier, cloud_verifier-refuses,
}
use tkngate.Tests.Admission.{tokens, open_hash, all_run, budget, guard}

-- A source of one byte, and a hash that is the text itself.
abbrev source : KeySource
source = record { read = λ n. some (97 ∷ []); encode = λ b. b; generate_hash = λ p cost. some p }

abbrev plain_hash : Verifier
plain_hash = record open_hash { compare_hash = λ h p. h =s p }

some-same : (p h : Bytes) → some p ≡ some h → p ≡ h
some-same p h e = cc

plain_hash-accepts : (p h : Bytes) → source.generate_hash p 10 ≡ some h → (h =s p) ≡ true
plain_hash-accepts p h e = rw (← some-same p h e) (=s_refl p)

generate_virtual_key-verifies_example :
    (k : VirtualKey) × (generate_virtual_key source ≡ some k)
    × (virtual_key (bytes "Bearer " ++ k.plaintext) ≡ some k.plaintext)
    × (verify_key plain_hash k.plaintext k.hash ≡ true)
generate_virtual_key-verifies_example =
    generate_virtual_key-verifies source plain_hash plain_hash-accepts (97 ∷ [])
      (bytes "tkngate-sk-a") refl refl

abbrev plain_url : Url
plain_url = record {
  scheme = bytes "http";
  authority = bytes "//control";
  path = [];
  raw_query = [];
  fragment = [];
}

-- A control plane that would say yes.
abbrev willing : CloudNetwork scaled
willing = record {
  parse = λ b. some plain_url;
  print = λ u. u.authority;
  to_lower = λ b. b;
  set_query = λ q n v. v;
  send = λ r. some record { status = 200; body = some [] };
  decode = λ b. some record { valid = true; key_id = bytes "1"; key_name = []; zone = [] };
  marshal = λ u. none;
}

abbrev cloud : CloudConfig
cloud = record { enabled = true; api_url = bytes "http://control"; secret = [] }

cloud_verifier-refuses_example :
    admit_key scaled tokens
      (cloud_verifier scaled willing cloud (λ b. b) (λ h p. true))
      budget
      all_run
      (bytes "tkngate-sk-1")
      (bytes "openai")
      guard
    ≡ (blocked invalid_key, guard)
unfolding ◌=s◌ allowed_cloud_scheme
cloud_verifier-refuses_example =
    cloud_verifier-refuses scaled willing tokens budget all_run cloud (λ b. b) (λ h p. true)
      plain_url refl refl refl (bytes "tkngate-sk-1") (bytes "openai") guard
