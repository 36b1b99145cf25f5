-- ===== src/Mesh/Moderation.antt =====
-- internal/mesh/moderation.go: the check of a prompt by the moderation endpoint of OpenAI. The request
-- over HTTP and encoding/json are parameters.
use tkngate.Base.{ℕ, Bool, true, not, Option, none, some, List, [], ◌∷◌, ◌==◌, if◌then◌else◌}
use tkngate.Base.Bytes.{Bytes}
use tkngate.Budget.Ledger.{is_set}

pub record Moderation : Type 0 where
  -- Mesh.ReputationEnabled && Mesh.PreflightModeration, and Mesh.ModerationAPIKey
  pub enabled : Bool
  pub api_key : Bytes
  pub marshal_input : Bytes → Option Bytes
  -- With the key and the body: the status and the body of the answer, if one came and was read.
  pub post : Bytes → Bytes → Option (ℕ × Bytes)
  -- `Flagged` of each of the results
  pub decode_results : Bytes → Option (List Bool)

first_is_safe : Option (List Bool) → Option Bool
first_is_safe none = none
first_is_safe (some []) = none
first_is_safe (some (flagged ∷ rest)) = some (not flagged)

verdict : Moderation → Option (ℕ × Bytes) → Option Bool
unfolding first_is_safe
verdict m none = none
verdict m (some (status, body)) =
    if status == 200 then first_is_safe (m.decode_results body) else none

ask : Moderation → Option Bytes → Option Bool
unfolding verdict
ask m none = none
ask m (some request) = verdict m (m.post m.api_key request)

-- Whether the prompt is safe; `none` is an error.
unfoldable pub check_moderation : Moderation → Bytes → Option Bool
unfolding ask
check_moderation m prompt =
    if not m.enabled
    then some true
    else if not (is_set m.api_key)
    then none
    else ask m (m.marshal_input prompt)
