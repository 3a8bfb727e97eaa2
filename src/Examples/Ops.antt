-- ===== src/Examples/Ops.antt =====
-- Alerts on a small cluster.
use enterprise_llm_assistant.Core.Exceptions.{app, value_error}
use enterprise_llm_assistant.Core.Json.{Json, text, object}
use enterprise_llm_assistant.Core.Json.Values.{fields_of, dict_of}
use enterprise_llm_assistant.Api.Alertmanager.{Validation, alerts_of}
use enterprise_llm_assistant.Api.Ops.{DiagnoseResponse, verify_webhook_secret, ingest_alerts}
use enterprise_llm_assistant.Api.Ops.Requests.{ingest_alerts-answers}
use enterprise_llm_assistant.Repositories.Findings.{OpsFinding}
use enterprise_llm_assistant.Repositories.Findings.Filed.{IsFiled-empty}
use enterprise_llm_assistant.Services.Alerts.{AlertPayload, resolve_fingerprint}
use enterprise_llm_assistant.Services.OpsNotifier.{Slack, Floats}
use enterprise_llm_assistant.Services.OpsSetup.{Setup, OpsDraws, State}
use enterprise_llm_assistant.Services.OpsDiagnosis.{diagnose}
use enterprise_llm_assistant.Services.OpsDiagnosis.Steps.{diagnose-returns}
use enterprise_llm_assistant.Services.OpsDiagnosis.Once as Once
use enterprise_llm_assistant.Services.OpsDiagnosis.Once.{notified_once}
use enterprise_llm_assistant.Prelude.{ℕ, String, true, none, some, List, [], ◌∷◌, ◌≡◌, refl}
use enterprise_llm_assistant.Prelude.{string_eq, length}
use enterprise_llm_assistant.Prelude.Text.{truthy, strip, or_empty}
use enterprise_llm_assistant.Prelude.Dict
use enterprise_llm_assistant.Prelude.Exec.{ok, raised}
use enterprise_llm_assistant.Examples.Llm.{dict_cache, twice}
use enterprise_llm_assistant.Examples.Cluster.{
  logged, connected, three_texts, online, scripted, agent,
}

-- A webhook that keeps what was posted, and then fails.
abbrev wall : Slack
wall = record {
  State = List String;
  post = λ url message posts. (raised (app "down" 500), message ∷ posts);
}

abbrev plain_floats : Floats
plain_floats = record {
  to_float = λ j. ok "0.5";
  at_most_one = λ x. x;
  at_least_zero = λ x. x;
  fixed = λ x. x;
}

abbrev setup : Setup
setup = record {
  provider = scripted;
  cache = dict_cache;
  cluster = logged;
  client = connected;
  json = three_texts;
  slack = wall;
  floats = plain_floats;
  settings = record online {
    ops_webhook_secret = "secret";
    ops_slack_webhook_url = "https://slack";
  };
  policy = twice;
  timeout = none;
  has_llm = true;
}

abbrev quiet : State setup
quiet = record {
  llm = (agent "a guess").llm;
  store = record { by_id = []; by_fingerprint = [] };
  cluster = [];
  slack = [];
}

abbrev pod_down : AlertPayload
pod_down = record {
  alertname = "PodDown";
  severity = "critical";
  summary = "";
  description = "";
  namespace = some "prod";
  resource = some "api-1";
  resource_kind = some "pod";
  labels = [];
  annotations = [];
  fingerprint = some "fp1";
  starts_at = none;
  raw = [];
}

abbrev pod_down_again : AlertPayload
pod_down_again = record pod_down { severity = "warning"; starts_at = some "2026" }

abbrev ops_draws : ℕ → OpsDraws
ops_draws n = record { id = "f"; now = "2026"; clock = (n, n) }

f_named : truthy "f" ≡ true
unfolding truthy
f_named = refl

same_fingerprint : resolve_fingerprint pod_down_again ≡ resolve_fingerprint pod_down
unfolding resolve_fingerprint
same_fingerprint = refl

notified_once_example :
    (diagnose setup
      (ops_draws 1)
      pod_down_again
      (diagnose setup (ops_draws 0) pod_down quiet).1).1.slack
    ≡ (diagnose setup (ops_draws 0) pod_down quiet).1.slack
notified_once_example =
    notified_once setup quiet quiet (diagnose setup (ops_draws 0) pod_down quiet).1 (ops_draws 0)
      (ops_draws 1) pod_down pod_down_again IsFiled-empty Once.now f_named Once.now same_fingerprint

diagnose-returns_example :
    (f : OpsFinding) × ((diagnose setup (ops_draws 0) pod_down quiet).0 ≡ ok f)
    × ((diagnose setup (ops_draws 0) pod_down quiet).1.cluster ≡ [])
diagnose-returns_example = diagnose-returns setup (ops_draws 0) pod_down quiet

abbrev one_alert : Validation
one_alert = record {
  webhook = λ j. raised (value_error "no webhook");
  alert = λ j. ok pod_down;
  no_text = λ j. "not a text";
  too_short = "too short";
}

abbrev body : Json
body = object (fields_of (("alertname", text "PodDown") ∷ []))

secret_given : (verify_webhook_secret setup.settings (some "secret") quiet).0 ≡ ok tt
unfolding verify_webhook_secret strip truthy or_empty string_eq
secret_given = refl

body_read : (alerts_of setup.json one_alert body tt).0 ≡ ok (pod_down ∷ [])
unfolding alerts_of fields_of dict_of Dict.lookup string_eq
body_read = refl

ingest_alerts-answers_example :
    (responses : List DiagnoseResponse) × ((ingest_alerts setup one_alert ops_draws
        (some "secret")
        (ok body)
        quiet).0
      ≡ ok responses)
    × (length responses ≡ 1)
    × ((ingest_alerts setup one_alert ops_draws (some "secret") (ok body) quiet).1.cluster ≡ [])
ingest_alerts-answers_example =
    ingest_alerts-answers setup one_alert ops_draws (some "secret") body (pod_down ∷ []) quiet
      secret_given body_read
