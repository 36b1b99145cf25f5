-- ===== src/Cache/Semantic/Keys.antt =====
-- Which payloads share a key.
use tkngate.Base.{◌≡◌, refl, some, []}
use tkngate.Base.Bytes.{Bytes, bytes}
use tkngate.Base.Maps.{Map, lookup}
use tkngate.Cache.Semantic.{Codec, canonical, copy_field, compute_key}

module _ (K : Codec) where
  copy_field-same :
      (f g : Map K.Json) (name : Bytes) (m : Map K.Json)
      → lookup name f ≡ lookup name g
      → copy_field K f name m ≡ copy_field K g name m
  unfolding copy_field
  copy_field-same f g name m e = rw (e, copy_field) refl

  canonical-same :
      (f g : Map K.Json)
      → lookup (bytes "model") f ≡ lookup (bytes "model") g
      → lookup (bytes "messages") f ≡ lookup (bytes "messages") g
      → lookup (bytes "tools") f ≡ lookup (bytes "tools") g
      → lookup (bytes "tool_choice") f ≡ lookup (bytes "tool_choice") g
      → lookup (bytes "response_format") f ≡ lookup (bytes "response_format") g
      → canonical K f ≡ canonical K g
  unfolding canonical
  canonical-same f g model messages tools choice format =
      let a = copy_field K g (bytes "model") [] in
      let b = copy_field K g (bytes "messages") a in
      let c = copy_field K g (bytes "tools") b in
      let d = copy_field K g (bytes "tool_choice") c in
      rw (copy_field-same f g (bytes "model") [] model, canonical)
        (rw (copy_field-same f g (bytes "messages") a messages) (
          rw (copy_field-same f g (bytes "tools") b tools) (
            rw (copy_field-same f g (bytes "tool_choice") c choice)
              (copy_field-same f g (bytes "response_format") d format))))

  -- Two payloads that decode to objects with the same model, messages, tools, tool_choice and
  -- response_format have the same key, if the codec can write these fields.
  pub compute_key-fields :
      (p q : Bytes) (f g : Map K.Json) (b : Bytes)
      → K.unmarshal p ≡ some f
      → K.unmarshal q ≡ some g
      → lookup (bytes "model") f ≡ lookup (bytes "model") g
      → lookup (bytes "messages") f ≡ lookup (bytes "messages") g
      → lookup (bytes "tools") f ≡ lookup (bytes "tools") g
      → lookup (bytes "tool_choice") f ≡ lookup (bytes "tool_choice") g
      → lookup (bytes "response_format") f ≡ lookup (bytes "response_format") g
      → K.marshal (canonical K f) ≡ some b
      → compute_key K p ≡ compute_key K q
  unfolding compute_key canonical copy_field
  compute_key-fields p q f g b read_p read_q model messages tools choice format written =
      let same = canonical-same f g model messages tools choice format in
      let written' : K.marshal (canonical K g) ≡ some b = rw (← same) written in
      rw (read_p, read_q, compute_key) (rw same (rw written' refl))
