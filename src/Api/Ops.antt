-- ===== src/Api/Ops.antt =====
-- app/api/ops.py: the webhook of Alertmanager, the alerts of users and the findings. FastAPI reads the request
-- and Pydantic validates it; both are a parameter. The permission of the user is checked before a handler runs.
pub mod Requests
use mathlib.Core.List
use enterprise_llm_assistant.Core.Exceptions.{app, value_error}
use enterprise_llm_assistant.Core.Json.{Json}
use enterprise_llm_assistant.Core.Settings.{Settings}
use enterprise_llm_assistant.Api.Alertmanager.{Validation, alerts_of}
use enterprise_llm_assistant.Repositories.Findings
use enterprise_llm_assistant.Repositories.Findings.{OpsFinding, FindingStore}
use enterprise_llm_assistant.Services.Alerts.{AlertPayload, resolve_fingerprint}
use enterprise_llm_assistant.Services.OpsSetup.{Setup, OpsDraws, State}
use enterprise_llm_assistant.Services.OpsDiagnosis.{diagnose}
use enterprise_llm_assistant.Prelude.{
  ℕ, ◌+◌, String, Bool, true, false, not, Option, none, some, List, [], ◌∷◌, min,
}
use enterprise_llm_assistant.Prelude.{string_eq, ◌==◌, if◌then◌else◌}
use enterprise_llm_assistant.Prelude.Text.{truthy, or_empty, strip}
use enterprise_llm_assistant.Prelude.Dict
use enterprise_llm_assistant.Prelude.Dict.{Dict}
use enterprise_llm_assistant.Prelude.Exec.{
  Result, ok, raised, Exec, pure, asks, raise_if, ◌>>=◌, ◌>>◌,
}

pub record DiagnoseResponse : Type 0 where
  pub finding : OpsFinding
  pub deduplicated : Bool

pub record SimpleAlertRequest : Type 0 where
  pub alertname : String
  pub severity : String
  pub summary : String
  pub namespace : Option String
  pub resource : Option String
  pub resource_kind : Option String
  pub labels : Dict String String

-- `_verify_webhook_secret`, with the header of the request.
unfoldable pub verify_webhook_secret : {S : Type 0} → Settings → Option String → Exec S Unit
verify_webhook_secret cfg header =
    let expected = strip cfg.ops_webhook_secret in
    raise_if (if truthy expected then not (or_empty header == expected) else false)
      (app "Invalid ops webhook secret" 401)

-- The first finding of the fingerprint.
unfoldable pub with_fingerprint : String → List OpsFinding → Option OpsFinding
with_fingerprint fp [] = none
with_fingerprint fp (item ∷ items) =
    if item.fingerprint == fp then some item else with_fingerprint fp items

-- `existing is not None and existing.id == finding.id`
is_same : Option OpsFinding → OpsFinding → Bool
is_same none finding = false
is_same (some existing) finding = existing.id == finding.id

module _ (O : Setup) where
  -- The loop over the alerts. A response holds the finding itself, so the responses keep its id, and are
  -- written at the end.
  unfoldable pub diagnose_each :
      (ℕ → OpsDraws) → ℕ → List AlertPayload → Exec (State O) (List DiagnoseResponse)
  unfolding is_same with_fingerprint
  diagnose_each draws n [] = pure []
  diagnose_each draws n (alert ∷ alerts) = do
    existing ←
        (λ s. (ok (with_fingerprint (resolve_fingerprint alert) (Findings.list 200 s.store)), s))
    finding ← diagnose O (draws n) alert
    rest ← diagnose_each draws (n + 1) alerts
    pure (record { finding = finding; deduplicated = is_same existing finding } ∷ rest)

  -- What a response shows of its finding when all alerts are done.
  abbrev pub shown_at_end : FindingStore → DiagnoseResponse → DiagnoseResponse
  shown_at_end store r = record r {
    finding = elim (Findings.get r.finding.id store) [ none ↦ r.finding | some f ↦ f ];
  }

  unfoldable pub ingest_alerts :
      Validation
      → (ℕ → OpsDraws)
      → Option String
      → Result Json
      → Exec (State O) (List DiagnoseResponse)
  unfolding diagnose_each
  ingest_alerts V draws header body = do
    verify_webhook_secret O.settings header
    payload ← asks (λ s. body)
    alerts ← asks (λ s. (alerts_of O.json V payload tt).0)
    responses ← diagnose_each draws 0 alerts
    (λ s. (ok (List.map (shown_at_end s.store) responses), s))

  unfoldable pub ingest_simple_alert :
      Validation → OpsDraws → Option String → SimpleAlertRequest → Exec (State O) DiagnoseResponse
  ingest_simple_alert V d header body = do
    verify_webhook_secret O.settings header
    raise_if (not (truthy body.alertname)) (value_error V.too_short)
    finding ← diagnose O d (record {
      alertname = body.alertname;
      severity = body.severity;
      summary = body.summary;
      description = "";
      namespace = body.namespace;
      resource = body.resource;
      resource_kind = body.resource_kind;
      labels = body.labels;
      annotations = [];
      fingerprint = none;
      starts_at = none;
      raw = [];
    })
    pure (record { finding = finding; deduplicated = false })

  -- The limit is a natural number.
  unfoldable pub list_findings : ℕ → Exec (State O) (List OpsFinding)
  list_findings limit s = (ok (Findings.list (min limit 200) s.store), s)

  unfoldable pub get_finding : String → Exec (State O) OpsFinding
  get_finding finding_id s = elim (Findings.get finding_id s.store) [
    | none ↦ (raised (app "Finding not found" 404), s)
    | some finding ↦ (ok finding, s)
  ]
