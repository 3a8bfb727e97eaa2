-- ===== src/Services/OpsDiagnosis.antt =====
-- app/services/ops_diagnosis_service.py, `OpsDiagnosisService`: the evidence and the finding. The log is not modelled.
pub mod Steps
pub mod Once
use mathlib.Core.List
use enterprise_llm_assistant.Core.Exceptions.{text_of}
use enterprise_llm_assistant.Core.Json.{Json, text, object}
use enterprise_llm_assistant.Core.Json.Values.{fields_of, text_or_null}
use enterprise_llm_assistant.Clients.KubernetesApi.{Answer}
use enterprise_llm_assistant.Repositories.Findings
use enterprise_llm_assistant.Repositories.Findings.{OpsFinding, FindingHypothesis}
use enterprise_llm_assistant.Services.Alerts.{AlertPayload, resolve_fingerprint}
use enterprise_llm_assistant.Services.LlmService
use enterprise_llm_assistant.Services.OpsNotifier.{notify}
use enterprise_llm_assistant.Tools.Kubernetes
use enterprise_llm_assistant.Prelude.{String, Bool, true, false, none, some, List, [], ◌∷◌}
use enterprise_llm_assistant.Prelude.{string_eq, if◌then◌else◌}
use enterprise_llm_assistant.Prelude.Dict
use enterprise_llm_assistant.Prelude.Dict.{Dict}
use enterprise_llm_assistant.Prelude.Exec.{Result, ok, raised, Exec, pure, ◌>>=◌, ◌>>◌}
use enterprise_llm_assistant.Services.OpsSetup.{Setup, OpsDraws, State, is_pod, is_deployment}
use enterprise_llm_assistant.Services.OpsAdvisory.{build_advisory}

-- A resource, its events and its logs, asked for by name.
get_query : String → AlertPayload → Answer
get_query kind alert =
    ("action", text "get")
    ∷ ("kind", text kind)
    ∷ ("name", text_or_null alert.resource)
    ∷ ("namespace", text_or_null alert.namespace)
    ∷ []

named_query : String → AlertPayload → Answer
named_query action alert =
    ("action", text action)
    ∷ ("name", text_or_null alert.resource)
    ∷ ("namespace", text_or_null alert.namespace)
    ∷ []

-- What `_collect_evidence` asks, in order.
unfoldable pub queries : AlertPayload → List Answer
unfolding is_pod is_deployment get_query named_query
queries alert =
    if is_pod alert
    then get_query "pod" alert ∷ named_query "events" alert ∷ named_query "logs" alert ∷ []
    else if is_deployment alert
    then get_query "deployment" alert ∷ named_query "events" alert ∷ []
    else (("action", text "list")
        ∷ ("kind", text "pods")
        ∷ ("namespace", text_or_null alert.namespace)
        ∷ [])
      ∷ (("action", text "events") ∷ ("namespace", text_or_null alert.namespace) ∷ [])
      ∷ []

module _ (O : Setup) where
  abbrev pub M : Type 0 → Type 0
  M A = Exec (State O) A

  -- The answers, up to the first exception, which stands as an answer in its place.
  unfoldable pub gather : List Answer → O.cluster.State → List Answer × O.cluster.State
  gather [] s = ([], s)
  gather (query ∷ queries) s =
      let (r, t) =
        Kubernetes.execute O.cluster O.json O.settings O.client
          (O.json.dumps (object (fields_of query))) s in
      let (rest, u) = gather queries t in
      elim r [
        | raised e ↦ ((("error", text (text_of e)) ∷ []) ∷ [], t)
        | ok answer ↦ (answer ∷ rest, u)
      ]

  -- `_collect_evidence`
  unfoldable pub collect_evidence : AlertPayload → M (List Answer)
  unfolding gather
  collect_evidence alert s =
      let (evidence, t) = gather (queries alert) s.cluster in
      (ok evidence, record s { cluster = t })

  text_dict : Dict String String → Json
  text_dict d = object (fields_of (List.map (λ ((k, v) : String × String). (k, text v)) d))

  -- The finding that `diagnose` makes.
  unfoldable pub finding_of :
      OpsDraws → AlertPayload → List Answer → List FindingHypothesis × List String → OpsFinding
  unfolding text_dict
  finding_of d alert evidence (hypotheses, suggestions) = record {
    id = d.id;
    fingerprint = resolve_fingerprint alert;
    alertname = alert.alertname;
    severity = alert.severity;
    namespace = alert.namespace;
    resource = alert.resource;
    resource_kind = alert.resource_kind;
    evidence = evidence;
    hypotheses = hypotheses;
    suggested_actions = suggestions;
    playbook_links = [];
    status = "open";
    created_at = d.now;
    notified = false;
    metadata =
        ("labels", text_dict alert.labels) ∷ ("annotations", text_dict alert.annotations) ∷ [];
  }

  on_slack : Exec O.slack.State Unit → M Unit
  on_slack m s = ((m s.slack).0, record s { slack = (m s.slack).1 })

  upsert : OpsFinding → M OpsFinding
  upsert finding s =
      let (stored, store) = Findings.upsert finding s.store in
      (ok stored, record s { store = store })

  -- `mark_notified` changes the finding itself, which is the one that was stored.
  mark : OpsFinding → M OpsFinding
  mark stored s =
      let store = Findings.mark_notified stored.id s.store in
      (
        ok (elim (Findings.get stored.id store) [ none ↦ stored | some marked ↦ marked ]),
        record s { store = store },
      )

  -- `if not stored.notified`
  unfoldable pub announce : OpsFinding → M OpsFinding
  unfolding on_slack mark
  announce stored =
      if stored.notified
      then pure stored
      else (do on_slack (notify O.slack O.floats O.settings stored); mark stored)

  unfoldable pub diagnose : OpsDraws → AlertPayload → M OpsFinding
  unfolding upsert announce
  diagnose d alert = do
    evidence ← collect_evidence alert
    advisory ← build_advisory O d.clock alert evidence
    stored ← upsert (finding_of d alert evidence advisory)
    announce stored
