-- ===== src/Proxy/Capture/Downgrade.antt =====
-- A request in the amber zone goes on with the fallback model.
use tkngate.Base.{
  ℕ, ◌≡◌, refl, sym, ap, ◌∙◌, inl, inr, Bool, true, false, not, Option, none, some, ◌>>=◌, List,
  arith, Bool-cases, Option-cases,
}
use mathlib.Core.Option
use tkngate.Base.Bytes.{Bytes, bytes, ◌=s◌, =s_eq, =s_refl}
use tkngate.Base.Maps.{Map, lookup, insert, lookup-insert}
use tkngate.Float64.{Float64}
use tkngate.Budget.Models.{BudgetZone, amber}
use tkngate.Budget.Guard.{same_zone}
use tkngate.Waf.{Engine, redact_pii}
use tkngate.Tokenizer.{Unicode}
use tkngate.Proxy.Json.{Json, str, arr, items, as_string, JsonCodec}
use tkngate.Proxy.Payload.{
  extract_model, replace_model, compress_payload, compress_messages, with_messages, messages_of,
}
use tkngate.Proxy.Capture.{
  CaptureConfig, Input, ready, Screen, fallback_of, downgrade, shorter, compressed, rewrite,
  answered, moderated_rewrite, capture,
}

-- A field of a map, if it is a string.
unfoldable pub text_of : Bytes → Map Json → Option Bytes
text_of k m = do v ← lookup k m; as_string v

-- encoding/json writes every decoded map, and what it writes is read back with the same strings, in
-- which bytes that are no UTF-8 are replaced.
pub record IsFaithful (K : JsonCodec) : Type 0 where
  pub to_utf8 : Bytes → Bytes
  pub writes : (m : Map Json) → (b : Bytes) × (K.marshal m ≡ some b)
  pub reads :
      (m : Map Json) (b : Bytes)
      → K.marshal m ≡ some b
      → (m' : Map Json) × (K.unmarshal b ≡ some m')
        × ((k : Bytes) → text_of k m' ≡ Option.map to_utf8 (text_of k m))

or_unknown : Option Bytes → Bytes
or_unknown none = bytes "unknown"
or_unknown (some m) = m

module _ (K : JsonCodec) (faithful : IsFaithful K) where
  extract_model-text :
      (b : Bytes) (m : Map Json)
      → K.unmarshal b ≡ some m
      → extract_model K b ≡ or_unknown (text_of (bytes "model") m)
  unfolding extract_model or_unknown text_of
  extract_model-text b m e = elim (Option-cases (lookup (bytes "model") m)) [
    | inl missing ↦ rw (e, extract_model) (rw missing refl)
    | inr (v, there) ↦ rw (e, extract_model) (rw there refl)
  ]

  -- The model of a text that was written.
  extract_model-written :
      (m : Map Json) (b : Bytes)
      → K.marshal m ≡ some b
      → extract_model K b ≡ or_unknown (Option.map faithful.to_utf8 (text_of (bytes "model") m))
  extract_model-written m b e =
      let (m', r, same) = faithful.reads m b e in
      extract_model-text b m' r ∙ ap or_unknown (same (bytes "model"))

  -- The model stays when the codec reads a text whose strings are UTF-8 back.
  model_kept :
      (fb : Bytes) (o : Option Bytes)
      → faithful.to_utf8 fb ≡ fb
      → or_unknown o ≡ fb
      → or_unknown (Option.map faithful.to_utf8 o) ≡ fb
  unfolding or_unknown
  model_kept fb none u e = e
  model_kept fb (some m) u e = ap faithful.to_utf8 e ∙ u

  text_of-insert : (k : Bytes) (s : Bytes) (m : Map Json) → text_of k (insert k (str s) m) ≡ some s
  unfolding text_of
  text_of-insert k s m = rw (lookup-insert k k (str s) m) (rw (=s_refl k) refl)

  text_of-insert_other :
      (k j : Bytes) (v : Json) (m : Map Json)
      → (j =s k) ≡ false
      → text_of k (insert j v m) ≡ text_of k m
  unfolding text_of
  text_of-insert_other k j v m h = rw (lookup-insert j k v m) (rw h refl)

  replace_model-model :
      (p fb b : Bytes) (m : Map Json)
      → K.unmarshal p ≡ some m
      → K.leaves_nil p ≡ false
      → faithful.to_utf8 fb ≡ fb
      → replace_model K p fb ≡ some b
      → extract_model K b ≡ fb
  unfolding replace_model or_unknown
  replace_model-model p fb b m e nn u r =
      let (b', w) = faithful.writes (insert (bytes "model") (str fb) m) in
      let made : replace_model K p fb ≡ some b' = rw (e, replace_model) (rw nn (rw w refl)) in
      let same : b' ≡ b = ground arith in
      let text = text_of-insert (bytes "model") fb m in
      ap (λ x. extract_model K x) (sym same)
      ∙ (extract_model-written _ b' w ∙ model_kept fb _ u (ap or_unknown text))

  module _ (compress : Bytes → Bytes) where
    messages_of-source :
        (p : Bytes) (source : Map Json) (messages : List Json)
        → messages_of K compress p ≡ some (source, messages)
        → K.unmarshal p ≡ some source
    unfolding messages_of
    messages_of-source p source messages e = ground arith

    with_messages-model :
        (p fb : Bytes) (source : Map Json) (out : List Json × Bool)
        → K.unmarshal p ≡ some source
        → faithful.to_utf8 fb ≡ fb
        → extract_model K p ≡ fb
        → extract_model K (with_messages K compress p source out) ≡ fb
    unfolding with_messages ◌=s◌
    with_messages-model p fb source (messages, false) r u e = e
    with_messages-model p fb source (messages, true) r u e =
        let written = insert (bytes "messages") (arr (items messages)) source in
        let (b, w) = faithful.writes written in
        let same =
          text_of-insert_other (bytes "model") (bytes "messages") (arr (items messages)) source
            refl in
        rw (w, with_messages)
          (extract_model-written written b w
            ∙ model_kept fb _ u (ap or_unknown same ∙ (sym (extract_model-text p source r) ∙ e)))

    compress_payload-model :
        (p fb : Bytes)
        → faithful.to_utf8 fb ≡ fb
        → extract_model K p ≡ fb
        → extract_model K (compress_payload K compress p) ≡ fb
    unfolding compress_payload
    compress_payload-model p fb u e = elim (Option-cases (messages_of K compress p)) [
      | inl without ↦ rw (without, compress_payload) e
      | inr ((source, messages), found) ↦
          rw (found, compress_payload)
            (with_messages-model p fb source (compress_messages K compress messages)
              (messages_of-source p source messages found) u e)
    ]

    module _ (F : Float64) (E : Engine) (U : Unicode) (moderate : Bytes → Option Bool)
        (cfg : CaptureConfig F) where
      downgrade-model :
          (body b model : Bytes) (m : Map Json)
          → K.unmarshal body ≡ some m
          → K.leaves_nil body ≡ false
          → faithful.to_utf8 (fallback_of F K E U compress moderate cfg)
            ≡ fallback_of F K E U compress moderate cfg
          → downgrade F K E U compress moderate cfg amber body ≡ some (b, model)
          → (model ≡ fallback_of F K E U compress moderate cfg)
            × (extract_model K b ≡ fallback_of F K E U compress moderate cfg)
      unfolding downgrade same_zone
      downgrade-model body b model m r nn u e =
          let fb = fallback_of F K E U compress moderate cfg in
          elim (Bool-cases (extract_model K body =s fb)) [
            | inl already ↦
                let eq = =s_eq (extract_model K body) fb already in
                let same : (body ≡ b) × (extract_model K body ≡ model) = ground arith in
                (sym same.1 ∙ eq, ap (λ x. extract_model K x) (sym same.0) ∙ eq)
            | inr another ↦ elim (Option-cases (replace_model K body fb)) [
              | inl panics ↦ absurd (ground arith)
              | inr (b', made) ↦
                  let same : (b' ≡ b) × (fb ≡ model) = ground arith in
                  (
                    sym same.1,
                    ap (λ x. extract_model K x) (sym same.0)
                        ∙ replace_model-model body fb b' m r nn u made,
                  )
            ]
          ]

      compressed-model :
          (body fb model : Bytes)
          → faithful.to_utf8 fb ≡ fb
          → extract_model K body ≡ fb
          → extract_model K (compressed F K E U compress moderate cfg body model) ≡ fb
      unfolding compressed shorter
      compressed-model body fb model u e = ground (arith, compress_payload-model body fb u e)

      rewrite-model :
          (pii : Bool) (body : Bytes) (i : Input) (m : Map Json)
          → K.unmarshal body ≡ some m
          → K.leaves_nil body ≡ false
          → faithful.to_utf8 (fallback_of F K E U compress moderate cfg)
            ≡ fallback_of F K E U compress moderate cfg
          → rewrite F K E U compress moderate cfg amber pii body ≡ ready i
          → (i.model ≡ fallback_of F K E U compress moderate cfg)
            × (extract_model K i.body ≡ fallback_of F K E U compress moderate cfg)
      unfolding rewrite
      rewrite-model pii body i m r nn u e =
          elim (Option-cases (downgrade F K E U compress moderate cfg amber body)) [
            | inl panics ↦ absurd (ground arith)
            | inr ((b, model), made) ↦
                let (named, in_body) = downgrade-model body b model m r nn u made in
                let out : (model ≡ i.model)
                    × (compressed F K E U compress moderate cfg b model ≡ i.body) =
                  ground arith in
                (
                  sym out.0 ∙ named,
                  ap (λ x. extract_model K x) (sym out.1) ∙ compressed-model b _ model u in_body,
                )
          ]

      moderated_rewrite-ready :
          (zone : BudgetZone) (run pii : Bool) (now : ℕ) (session body : Bytes)
          (s : Screen F K E U compress moderate cfg) (i : Input)
          → (moderated_rewrite F K E U compress moderate cfg zone run now session pii body s).0
            ≡ ready i
          → rewrite F K E U compress moderate cfg zone pii body ≡ ready i
      unfolding moderated_rewrite answered
      moderated_rewrite-ready zone run pii now session body s i e = ground arith

      -- In the amber zone a request whose body, once redacted, is a JSON object goes on with the
      -- fallback model: in the account of the request and in the body itself, compressed or not.
      pub amber_uses_fallback :
          (run : Bool) (now : ℕ) (session body : Bytes) (s : Screen F K E U compress moderate cfg)
          (i : Input) (m : Map Json)
          → K.unmarshal (redact_pii E body) ≡ some m
          → K.leaves_nil (redact_pii E body) ≡ false
          → faithful.to_utf8 (fallback_of F K E U compress moderate cfg)
            ≡ fallback_of F K E U compress moderate cfg
          → (capture F K E U compress moderate cfg amber run now session (some body) s).0 ≡ ready i
          → (i.model ≡ fallback_of F K E U compress moderate cfg)
            × (extract_model K i.body ≡ fallback_of F K E U compress moderate cfg)
      unfolding capture
      amber_uses_fallback run now session body s i m r nn u e =
          let flagged = not (redact_pii E body =s body) in
          rewrite-model flagged (redact_pii E body) i m r nn u (
            moderated_rewrite-ready amber run flagged now session (redact_pii E body) s i
              (ground arith))
