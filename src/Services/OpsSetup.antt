-- ===== src/Services/OpsSetup.antt =====
-- What `OpsDiagnosisService` of app/services/ops_diagnosis_service.py is made with, and the parts that it changes.
use enterprise_llm_assistant.Core.Settings.{Settings}
use enterprise_llm_assistant.Core.Json.Values.{JsonText}
use enterprise_llm_assistant.Clients.KubernetesApi.{Cluster}
use enterprise_llm_assistant.Clients.Kubernetes.{KubernetesClient}
use enterprise_llm_assistant.Policies.Retry.{RetryPolicy}
use enterprise_llm_assistant.Repositories.Findings.{FindingStore}
use enterprise_llm_assistant.Services.Alerts.{AlertPayload}
use enterprise_llm_assistant.Services.LlmService.{Llm, Provider, Cache}
use enterprise_llm_assistant.Services.OpsNotifier.{Slack, Floats}
use enterprise_llm_assistant.Prelude.{ℕ, String, Bool, ◌&&◌, Option, [], ◌∷◌}
use enterprise_llm_assistant.Prelude.{string_eq, contains}
use enterprise_llm_assistant.Prelude.Text.{truthy, or_empty, lower}

-- What the service is made with.
pub record Setup : Type 1 where
  pub provider : Provider
  pub cache : Cache
  pub cluster : Cluster
  pub client : KubernetesClient
  pub json : JsonText
  pub slack : Slack
  pub floats : Floats
  pub settings : Settings
  pub policy : RetryPolicy
  pub timeout : Option ℕ
  -- A model is passed to the service.
  pub has_llm : Bool

pub record Ops (L : Type 0) (C : Type 0) (S : Type 0) : Type 0 where
  pub llm : L
  pub store : FindingStore
  pub cluster : C
  pub slack : S

-- What a diagnosis draws: an id, a time as `isoformat` writes it, and the clock that a call of the model reads.
pub record OpsDraws : Type 0 where
  pub id : String
  pub now : String
  pub clock : ℕ × ℕ

-- `(alert.resource_kind or "").lower()`
unfoldable pub kind_of : AlertPayload → String
kind_of alert = lower (or_empty alert.resource_kind)

unfoldable pub is_deployment : AlertPayload → Bool
unfolding kind_of
is_deployment alert =
    truthy (or_empty alert.resource)
    && contains ("deployment" ∷ "deploy" ∷ "deployments" ∷ []) (kind_of alert)

unfoldable pub is_pod : AlertPayload → Bool
unfolding kind_of
is_pod alert = truthy (or_empty alert.resource) && contains ("pod" ∷ "pods" ∷ []) (kind_of alert)

abbrev pub State : Setup → Type 0
State O = Ops (Llm O.provider.State O.cache.State) O.cluster.State O.slack.State
