-- ===== src/Proxy/Capture.antt =====
-- internal/proxy/middleware.go, the second part of `RoundTrip`: the body of a request is screened and
-- rewritten. Parameters: the compressor, the answer of the moderation service, encoding/json, and the
-- engines of the firewall and the tokenizer. Metrics are left out.

pub mod Downgrade
use tkngate.Base.{
  ℕ, Bool, true, false, not, ◌&&◌, Option, none, some, List, length, ltb, if◌then◌else◌,
}
use tkngate.Base.Int.{ℤ, pos, leb_ℤ}
use tkngate.Base.Bytes.{Bytes, bytes, ◌=s◌}
use tkngate.Float64.{Float64}
use tkngate.Budget.Models.{BudgetZone, amber}
use tkngate.Budget.Ledger.{is_set}
use tkngate.Budget.Guard.{same_zone}
use tkngate.Mesh.Reputation.{MeshConfig, ReputationManager, slash}
use tkngate.Waf.{Engine, WafConfig, detect_jailbreak, redact_pii}
use tkngate.Tokenizer.{Unicode, count}
use tkngate.Proxy.Json.{JsonCodec}
use tkngate.Proxy.Payload.{extract_model, replace_model, extract_prompt_string, compress_payload}

-- The settings that are read. `moderated`: Mesh.ReputationEnabled && Mesh.PreflightModeration
pub record CaptureConfig (F : Float64) : Type 0 where
  pub waf : WafConfig
  pub mesh : MeshConfig F
  pub moderated : Bool
  pub fallback_model : Bytes
  pub compressor_enabled : Bool
  pub soft_token_limit : ℤ

pub record Input : Type 0 where
  pub body : Bytes
  pub model : Bytes
  pub pii_flagged : Bool

pub data Refusal : Type 0 where
  jailbreak moderation_failed moderation_flagged : Refusal

-- `crashed` is the panic of `replaceModel`.
pub data Captured : Type 0 where
  stopped : Refusal → Captured
  ready : Input → Captured
  crashed : Captured

module _ (F : Float64) (K : JsonCodec) (E : Engine) (U : Unicode) (compress : Bytes → Bytes)
    (moderate : Bytes → Option Bool) (cfg : CaptureConfig F) where
  -- The state of the firewall and of the mesh.
  pub record Screen : Type 0 where
    pub custom_blocklist : List E.Regexp
    pub reputation : Option (ReputationManager F)

  unfoldable pub slash_session : Bool → ℕ → Bytes → Bytes → Screen → Screen
  slash_session run now session reason s = elim s.reputation [
    | none ↦ s
    | some m ↦
        if is_set session
        then record s { reputation = some (slash F cfg.mesh run now session reason m).1 }
        else s
  ]

  unfoldable pub fallback_of : Bytes
  fallback_of = if is_set cfg.fallback_model then cfg.fallback_model else bytes "gpt-4o-mini"

  -- The body and its model after the downgrade in the amber zone; `none` is a panic.
  unfoldable pub downgrade : BudgetZone → Bytes → Option (Bytes × Bytes)
  downgrade zone body =
      if same_zone zone amber && not (extract_model K body =s fallback_of)
      then elim (replace_model K body fallback_of) [ none ↦ none | some b ↦ some (b, fallback_of) ]
      else some (body, extract_model K body)

  unfoldable pub shorter : Bytes → Bytes → Bytes
  shorter new old = if ltb (length new) (length old) then new else old

  unfoldable pub compressed : Bytes → Bytes → Bytes
  unfolding shorter
  compressed body model =
      if cfg.compressor_enabled && not (leb_ℤ (pos (count F U body model)) cfg.soft_token_limit)
      then shorter (compress_payload K compress body) body
      else body

  unfoldable pub rewrite : BudgetZone → Bool → Bytes → Captured
  rewrite zone pii_flagged body = elim (downgrade zone body) [
    | none ↦ crashed
    | some (b, model) ↦
        ready record { body = compressed b model; model = model; pii_flagged = pii_flagged }
  ]

  unfoldable pub answered : Bool → ℕ → Bytes → Option Bool → Captured → Screen → Captured × Screen
  unfolding slash_session
  answered run now session none after s = (stopped moderation_failed, s)
  answered run now session (some true) after s = (after, s)
  answered run now session (some false) after s = (
    stopped moderation_flagged,
    slash_session run now session (bytes "OpenAI Moderation Flagged") s,
  )

  unfoldable pub moderated_rewrite :
      BudgetZone → Bool → ℕ → Bytes → Bool → Bytes → Screen → Captured × Screen
  unfolding answered
  moderated_rewrite zone run now session pii_flagged body s =
      let prompt = extract_prompt_string K body in
      if cfg.moderated && is_set prompt
      then answered run now session (moderate prompt) (rewrite zone pii_flagged body) s
      else (rewrite zone pii_flagged body, s)

  unfoldable pub capture : BudgetZone → Bool → ℕ → Bytes → Option Bytes → Screen → Captured × Screen
  unfolding slash_session moderated_rewrite
  capture zone run now session none s =
      (ready record { body = bytes ""; model = bytes ""; pii_flagged = false }, s)
  capture zone run now session (some body) s =
      if detect_jailbreak E cfg.waf s.custom_blocklist body
      then (stopped jailbreak, slash_session run now session (bytes "WAF Jailbreak Detected") s)
      else let sanitized = redact_pii E body in
        moderated_rewrite zone run now session (not (sanitized =s body)) sanitized s
