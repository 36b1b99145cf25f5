-- ===== src/Proxy/Director/Provider.antt =====
-- What the middleware learns from the director.
use tkngate.Base.{◌≡◌, refl, ◌∙◌, Bool, true, false, Option, none, some, ◌++◌, if◌then◌else◌, arith}
use tkngate.Base.Bytes.{Bytes, bytes, ◌=s◌, =s_refl}
use tkngate.Base.Maps.{Map, lookup, insert, lookup-insert}
use tkngate.Base.Text.{contains}
use tkngate.Budget.Ledger.{is_set}
use tkngate.Proxy.Admission.{caller_of, get, auth_header, provider_of}
use tkngate.Proxy.Director.{
  ProviderConfig, Request, Target, trim_prefix, target, base_url_of, split_scheme, split_slash,
  keep_auth, bearer, inject, send_to, director,
}

abbrev original : Bytes
original = bytes "X-Tkngate-Original-Auth"

-- A header keeps its value when another one is set.
set_other :
    (k j v : Bytes) (h : Map Bytes) → (k =s j) ≡ false → lookup j (insert k v h) ≡ lookup j h
set_other k j v h other = lookup-insert k j v h ∙ rw other refl

set_same : (k v : Bytes) (h : Map Bytes) → lookup k (insert k v h) ≡ some v
set_same k v h = lookup-insert k k v h ∙ rw (=s_refl k) refl

either :
    (b : Bool) (j : Bytes) (x y h : Map Bytes)
    → lookup j x ≡ lookup j h
    → lookup j y ≡ lookup j h
    → lookup j (if b then x else y) ≡ lookup j h
either true j x y h e f = e
either false j x y h e f = f

inject-original : (t : Target) (h : Map Bytes) → lookup original (inject t h) ≡ lookup original h
unfolding inject bearer ◌=s◌
inject-original t h =
    let key = t.config.api_key in
    let bearer_too = set_other (bytes "Authorization") original (bytes "Bearer " ++ key) h refl in
    either (t.provider =s bytes "anthropic") original _ _ h
      (set_other (bytes "Anthropic-Version") original (bytes "2023-06-01") _ refl
        ∙ set_other (bytes "X-Api-Key") original key h refl)
      (either (t.provider =s bytes "gemini") original _ _ h
        (either (contains (bytes "/openai") t.config.base_url) original _ _ h bearer_too
          (set_other (bytes "X-Goog-Api-Key") original key h refl))
        bearer_too)

keep_auth-original :
    (a : Bytes) (o : Option Bytes) (h : Map Bytes)
    → o ≡ some a
    → is_set a ≡ true
    → lookup original (keep_auth o h) ≡ some a
unfolding keep_auth
keep_auth-original a none h e s = absurd (ground arith)
keep_auth-original a (some b) h e s =
    let same : b ≡ a = ground arith in rw (same, keep_auth) (rw s (set_same original a h))

get-some : (k v : Bytes) (h : Map Bytes) → lookup k h ≡ some v → get k h ≡ v
unfolding get
get-some k v h e = rw (e, get) refl

caller_of-original :
    (h : Map Bytes) (a : Bytes)
    → lookup original h ≡ some a
    → is_set a ≡ true
    → auth_header (caller_of h) ≡ a
unfolding auth_header caller_of
caller_of-original h a e s = rw (get-some original a h e, auth_header) (rw s refl)

caller_of-provider :
    (h : Map Bytes) (p : Bytes)
    → lookup (bytes "X-Tkngate-Provider") h ≡ some p
    → is_set p ≡ true
    → provider_of (caller_of h) ≡ p
unfolding provider_of caller_of
caller_of-provider h p e s =
    rw (get-some (bytes "X-Tkngate-Provider") p h e, provider_of) (rw s refl)

-- The two headers that the director sets, whatever headers of TknGate the client has sent.
director-headers :
    (providers : Map ProviderConfig) (r : Request) (a : Bytes)
    → is_set (trim_prefix (bytes "/") r.path) ≡ true
    → lookup (bytes "Authorization") r.headers ≡ some a
    → is_set a ≡ true
    → let t = target providers (trim_prefix (bytes "/") r.path) in
      let out = (director providers r).headers in
      (lookup original out ≡ some a) × (lookup (bytes "X-Tkngate-Provider") out ≡ some t.provider)
unfolding director send_to ◌=s◌
director-headers providers r a path auth given =
    let t = target providers (trim_prefix (bytes "/") r.path) in
    let kept = keep_auth (lookup (bytes "Authorization") r.headers) r.headers in
    rw (path, director)
      (
        set_other (bytes "X-Tkngate-Provider") original t.provider (inject t kept) refl
            ∙ (inject-original t kept ∙ keep_auth-original a _ r.headers auth given),
        set_same (bytes "X-Tkngate-Provider") t.provider (inject t kept),
      )

-- What httputil.ReverseProxy does between the director and the middleware: it removes the hop-by-hop
-- headers, those that `Connection` names among them. It keeps a header that it does not remove.
pub record IsForwarding (forward : Map Bytes → Map Bytes) (removed : Map Bytes → Bytes → Bool)
    : Type 0 where
  pub keeps :
      (h : Map Bytes) (name : Bytes)
      → removed h name ≡ false
      → lookup name (forward h) ≡ lookup name h

-- For a request with an Authorization header and a path, which a provider with a name is found for, the
-- middleware takes the credentials for the client's own and the provider for the one whose backend the
-- director has put as the host, if the reverse proxy removes neither X-Tkngate-Original-Auth nor
-- X-Tkngate-Provider. A client that names them in Connection has them removed.
pub director-caller :
    (forward : Map Bytes → Map Bytes) (removed : Map Bytes → Bytes → Bool)
    (forwarding : IsForwarding forward removed) (providers : Map ProviderConfig) (r : Request)
    (a : Bytes)
    → is_set (trim_prefix (bytes "/") r.path) ≡ true
    → lookup (bytes "Authorization") r.headers ≡ some a
    → is_set a ≡ true
    → is_set (target providers (trim_prefix (bytes "/") r.path)).provider ≡ true
    → removed (director providers r).headers original ≡ false
    → removed (director providers r).headers (bytes "X-Tkngate-Provider") ≡ false
    → let t = target providers (trim_prefix (bytes "/") r.path) in
      let out = director providers r in
      (auth_header (caller_of (forward out.headers)) ≡ a)
      × (provider_of (caller_of (forward out.headers)) ≡ t.provider)
      × (out.host ≡ (split_slash (split_scheme (base_url_of t)).1).0)
unfolding director send_to
director-caller forward removed forwarding providers r a path auth given named keeps_auth
      keeps_provider =
    let t = target providers (trim_prefix (bytes "/") r.path) in
    let out = (director providers r).headers in
    let (seen, provider) = director-headers providers r a path auth given in
    (
      caller_of-original (forward out) a (forwarding.keeps out original keeps_auth ∙ seen) given,
      caller_of-provider (forward out) t.provider
          (forwarding.keeps out (bytes "X-Tkngate-Provider") keeps_provider ∙ provider) named,
      rw (path, director) refl,
    )
