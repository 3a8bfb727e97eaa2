-- ===== src/Services/Alerts.antt =====
-- app/models/ops.py, `AlertPayload` and `AlertmanagerWebhook`.
use enterprise_llm_assistant.Core.Json.{Json}
use enterprise_llm_assistant.Prelude.{String, Option, List, [], ◌∷◌}
use enterprise_llm_assistant.Prelude.{if◌then◌else◌}
use enterprise_llm_assistant.Prelude.Text.{truthy, or_empty, join}
use enterprise_llm_assistant.Prelude.Dict.{Dict}

pub record AlertPayload : Type 0 where
  pub alertname : String
  pub severity : String
  pub summary : String
  pub description : String
  pub namespace : Option String
  pub resource : Option String
  pub resource_kind : Option String
  pub labels : Dict String String
  pub annotations : Dict String String
  pub fingerprint : Option String
  pub starts_at : Option String
  pub raw : Dict String Json

pub record AlertmanagerWebhook : Type 0 where
  pub version : Option String
  pub status : Option String
  pub receiver : Option String
  pub alerts : List (Dict String Json)
  pub common_labels : Dict String String
  pub common_annotations : Dict String String
  pub external_url : Option String

unfoldable pub resolve_fingerprint : AlertPayload → String
resolve_fingerprint alert =
    if truthy (or_empty alert.fingerprint)
    then or_empty alert.fingerprint
    else join "|" (
        alert.alertname
        ∷ or_empty alert.namespace
        ∷ or_empty alert.resource_kind
        ∷ or_empty alert.resource
        ∷ [])
