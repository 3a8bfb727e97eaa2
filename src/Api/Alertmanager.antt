-- ===== src/Api/Alertmanager.antt =====
-- app/api/ops.py, `_normalize_alertmanager`, and the reading of a body in `ingest_alerts`. FastAPI and Pydantic are
-- parameters.
use mathlib.Core.List
use enterprise_llm_assistant.Core.Exceptions.{app, type_error, value_error}
use enterprise_llm_assistant.Core.Json.{Json, null, text, object}
use enterprise_llm_assistant.Core.Json.Values.{JsonText, dict_of, get_json, is_truthy, str}
use enterprise_llm_assistant.Services.Alerts.{AlertPayload, AlertmanagerWebhook}
use enterprise_llm_assistant.Prelude.{String, Bool, true, false, Option, none, some, List, [], ◌∷◌}
use enterprise_llm_assistant.Prelude.{string_eq, if◌then◌else◌}
use enterprise_llm_assistant.Prelude.Dict
use enterprise_llm_assistant.Prelude.Dict.{Dict}
use enterprise_llm_assistant.Prelude.Exec.{Result, ok, raised, Exec, pure, raise, asks, ◌>>=◌}

-- `model_validate` of Pydantic, and the texts of its errors about a value that is no text and about a text that is
-- too short.
pub record Validation : Type 0 where
  pub webhook : Json → Result AlertmanagerWebhook
  pub alert : Json → Result AlertPayload
  pub no_text : Json → String
  pub too_short : String

abbrev texts : Dict String String → Dict String Json
texts d = List.map (λ ((k, v) : String × String). (k, text v)) d

-- Reading a request, which keeps nothing.
abbrev pub Reading : Type 0 → Type 0
Reading A = Exec (Unit {0}) A

module _ (J : JsonText) (V : Validation) where
  -- The part of an alert that is spread into a dict: `raw.get(key) or {}`.
  spread : Json → Result (Dict String Json)
  spread (object fs) = ok (dict_of fs)
  spread j = if is_truthy J j then raised (type_error "the value is not a mapping") else ok []

  -- A field of `AlertPayload` that is a text or absent.
  optional_text : Json → Result (Option String)
  optional_text null = ok none
  optional_text (text s) = ok (some s)
  optional_text j = raised (value_error (V.no_text j))

  -- `d.get(first) or other`
  abbrev or_value : Json → Json → Json
  or_value j other = if is_truthy J j then j else other

  -- `str(d.get(key) or default)`
  abbrev text_or : String → String → Dict String Json → String
  text_or key default d = str J (or_value (get_json key d) (text default))

  abbrev resource_of : Dict String Json → Json
  resource_of labels =
      or_value (get_json "pod" labels)
        (or_value (get_json "deployment" labels) (get_json "resource" labels))

  abbrev resource_kind_of : Dict String Json → Json
  resource_kind_of labels =
      if is_truthy J (get_json "pod" labels)
      then text "pod"
      else if is_truthy J (get_json "deployment" labels)
      then text "deployment"
      else get_json "resource_kind" labels

  abbrev written : Dict String Json → Dict String String
  written d = List.map (λ ((k, j) : String × Json). (k, str J j)) d

  -- One alert of the webhook.
  normalize : AlertmanagerWebhook → Dict String Json → Reading AlertPayload
  unfolding spread optional_text
  normalize body raw = do
    own ← asks (λ s. spread (get_json "labels" raw))
    let labels = Dict.merged (texts body.common_labels) own
    noted ← asks (λ s. spread (get_json "annotations" raw))
    let annotations = Dict.merged (texts body.common_annotations) noted
    namespace ← asks (λ s. optional_text (get_json "namespace" labels))
    resource ← asks (λ s. optional_text (resource_of labels))
    resource_kind ← asks (λ s. optional_text (resource_kind_of labels))
    fingerprint ← asks (λ s. optional_text (get_json "fingerprint" raw))
    starts_at ← asks (λ s. optional_text (get_json "startsAt" raw))
    pure (record {
      alertname = text_or "alertname" "UnknownAlert" labels;
      severity = text_or "severity" "warning" labels;
      summary = text_or "summary" "" annotations;
      description = text_or "description" "" annotations;
      namespace = namespace;
      resource = resource;
      resource_kind = resource_kind;
      labels = written labels;
      annotations = written annotations;
      fingerprint = fingerprint;
      starts_at = starts_at;
      raw = raw;
    })

  -- `_normalize_alertmanager`
  unfoldable pub normalize_alertmanager :
      AlertmanagerWebhook → List (Dict String Json) → Reading (List AlertPayload)
  unfolding normalize
  normalize_alertmanager body [] = pure []
  normalize_alertmanager body (raw ∷ rest) = do
    alert ← normalize body raw
    alerts ← normalize_alertmanager body rest
    pure (alert ∷ alerts)

  has_key : String → Dict String Json → Bool
  has_key key d = elim (Dict.lookup key d) [ none ↦ false | some j ↦ true ]

  alerts_in : Dict String Json → Json → Reading (List AlertPayload)
  unfolding normalize_alertmanager has_key
  alerts_in d payload =
      if has_key "alerts" d
      then (do body ← asks (λ s. V.webhook payload); normalize_alertmanager body body.alerts)
      else if has_key "alertname" d
      then (do alert ← asks (λ s. V.alert payload); pure (alert ∷ []))
      else raise (app "Expected Alertmanager webhook or AlertPayload JSON" 400)

  -- The alerts of the body of a request.
  unfoldable pub alerts_of : Json → Reading (List AlertPayload)
  unfolding alerts_in
  alerts_of (object fs) = alerts_in (dict_of fs) (object fs)
  alerts_of _ = raise (app "Expected Alertmanager webhook or AlertPayload JSON" 400)
