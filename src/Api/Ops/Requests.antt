-- ===== src/Api/Ops/Requests.antt =====
-- What a request to the webhook of Alertmanager comes to.
use mathlib.Core.List
use enterprise_llm_assistant.Core.Exceptions.{app}
use enterprise_llm_assistant.Core.Json.{Json}
use enterprise_llm_assistant.Repositories.Findings
use enterprise_llm_assistant.Services.Alerts.{AlertPayload, resolve_fingerprint}
use enterprise_llm_assistant.Services.OpsSetup.{Setup, OpsDraws, State}
use enterprise_llm_assistant.Services.OpsDiagnosis.{diagnose}
use enterprise_llm_assistant.Services.OpsDiagnosis.Steps.{diagnose-returns}
use enterprise_llm_assistant.Api.Alertmanager.{Validation, alerts_of}
use enterprise_llm_assistant.Api.Ops.{
  DiagnoseResponse, verify_webhook_secret, diagnose_each, ingest_alerts, shown_at_end, is_same,
  with_fingerprint,
}
use enterprise_llm_assistant.Prelude.{
  ℕ, suc, ◌+◌, String, true, Option, List, [], ◌∷◌, ◌≡◌, ◌≢◌, refl, ap, ◌∙◌, arith,
}
use enterprise_llm_assistant.Prelude.{string_eq, length}
use enterprise_llm_assistant.Prelude.Text.{truthy, or_empty, strip}
use enterprise_llm_assistant.Prelude.Exec.{Result, ok, raised}

module _ (O : Setup) where
  -- Every alert is diagnosed, and the cluster is as it was.
  diagnose_each-returns :
      (draws : ℕ → OpsDraws) (n : ℕ) (alerts : List AlertPayload) (s : State O)
      → (responses : List DiagnoseResponse) × ((diagnose_each O draws n alerts s).0 ≡ ok responses)
        × (length responses ≡ length alerts)
        × ((diagnose_each O draws n alerts s).1.cluster ≡ s.cluster)
  unfolding diagnose_each
  diagnose_each-returns draws n [] s = ([], refl, refl, refl)
  diagnose_each-returns draws n (alert ∷ alerts) s =
      let (f, made, cluster) = diagnose-returns O (draws n) alert s in
      let (rest, answered, same, kept) =
        diagnose_each-returns draws (n + 1) alerts (diagnose O (draws n) alert s).1 in
      (
        record {
          finding = f;
          deduplicated =
              is_same (with_fingerprint (resolve_fingerprint alert) (Findings.list 200 s.store)) f;
        }
            ∷ rest,
        rw (made, answered) refl,
        ap suc same,
        rw (made, answered) (kept ∙ cluster),
      )

  length-map :
      (f : DiagnoseResponse → DiagnoseResponse) (rs : List DiagnoseResponse)
      → length (List.map f rs) ≡ length rs
  length-map f [] = refl
  length-map f (r ∷ rs) = ap suc (length-map f rs)

  verify-state :
      (header : Option String) (s : State O) → (verify_webhook_secret O.settings header s).1 ≡ s
  unfolding verify_webhook_secret
  verify-state header s = ground arith

  -- A request with a wrong secret, where one is set, is refused, and changes nothing.
  pub ingest_alerts-refused :
      (V : Validation) (draws : ℕ → OpsDraws) (header : Option String) (body : Result Json)
      (s : State O)
      → truthy (strip O.settings.ops_webhook_secret) ≡ true
      → or_empty header ≢ strip O.settings.ops_webhook_secret
      → ingest_alerts O V draws header body s ≡ (raised (app "Invalid ops webhook secret" 401), s)
  unfolding ingest_alerts verify_webhook_secret
  ingest_alerts-refused V draws header body s set wrong = ground arith

  -- A request that passes the check of the secret, and whose body is read as a list of alerts, is answered with
  -- one response for each alert, whatever the cluster, the model and Slack do, and leaves the cluster as it was.
  pub ingest_alerts-answers :
      (V : Validation) (draws : ℕ → OpsDraws) (header : Option String) (payload : Json)
      (alerts : List AlertPayload) (s : State O)
      → (verify_webhook_secret O.settings header s).0 ≡ ok tt
      → (alerts_of O.json V payload tt).0 ≡ ok alerts
      → (responses : List DiagnoseResponse) × ((ingest_alerts O V draws header (ok payload) s).0
          ≡ ok responses)
        × (length responses ≡ length alerts)
        × ((ingest_alerts O V draws header (ok payload) s).1.cluster ≡ s.cluster)
  unfolding ingest_alerts
  ingest_alerts-answers V draws header payload alerts s passed read =
      let (responses, answered, same, kept) = diagnose_each-returns draws 0 alerts s in
      let store = (diagnose_each O draws 0 alerts s).1.store in
      (
        List.map (shown_at_end O store) responses,
        rw (passed, verify-state header s, read, answered) refl,
        length-map (shown_at_end O store) responses ∙ same,
        rw (passed, verify-state header s, read, answered) kept,
      )
