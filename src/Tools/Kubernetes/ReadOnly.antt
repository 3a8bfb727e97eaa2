-- ===== src/Tools/Kubernetes/ReadOnly.antt =====
-- `KubernetesTool` only reads.
use enterprise_llm_assistant.Core.Settings.{Settings}
use enterprise_llm_assistant.Core.Json.{Json}
use enterprise_llm_assistant.Core.Json.Values.{JsonText, str, get_json}
use enterprise_llm_assistant.Clients.KubernetesApi.{Cluster, Answer}
use enterprise_llm_assistant.Clients.Kubernetes.{KubernetesClient}
use enterprise_llm_assistant.Clients.Kubernetes.Query.{parse_k8s_query}
use enterprise_llm_assistant.Clients.Kubernetes.Patches.{
  get_pod-state, list_pods-state, get_deployment-state, list_events-state, get_pod_logs-state,
}
use enterprise_llm_assistant.Prelude.{String, none, some, ◌≡◌, refl, arith, inl, inr}
use enterprise_llm_assistant.Prelude.{string_eq, contains, Bool-cases}
use enterprise_llm_assistant.Prelude.Exec.{Result, ok, raised}
use enterprise_llm_assistant.Tools.Kubernetes.{
  get_resource, inspect, execute_parsed, given_namespace, execute, word_at, read_actions,
}

module _ (K : Cluster) (J : JsonText) (cfg : Settings) (c : KubernetesClient) where
  get_resource-state :
      (kind : String) (name namespace : Json) (s : K.State)
      → (get_resource K J cfg c kind name namespace s).1 ≡ s
  unfolding get_resource
  get_resource-state kind name namespace s = ground (
    arith,
    get_pod-state K J cfg c (str J name) namespace s,
    list_pods-state K J cfg c namespace none s,
    get_deployment-state K J cfg c (str J name) namespace s,
  )

  inspect-state :
      (action kind : String) (name namespace : Json) (s : K.State)
      → (inspect K J cfg c action kind name namespace s).1 ≡ s
  unfolding inspect
  inspect-state action kind name namespace s = ground (
    arith,
    get_resource-state kind name namespace s,
    list_pods-state K J cfg c namespace none s,
    list_events-state K J cfg c namespace none s,
    list_events-state K J cfg c namespace (some (str J name)) s,
    get_pod_logs-state K J cfg c (str J name) namespace 100 s,
  )

  execute_parsed-state : (r : Result Answer) (s : K.State) → (execute_parsed K J cfg c r s).1 ≡ s
  unfolding execute_parsed
  execute_parsed-state (raised e) s = refl
  execute_parsed-state (ok parsed) s =
      elim (Bool-cases (contains read_actions (word_at K J cfg c "action" "get" parsed))) [
        | inl e ↦
            rw (e, execute_parsed)
              (inspect-state (word_at K J cfg c "action" "get" parsed)
                (word_at K J cfg c "kind" "pod" parsed) (get_json "name" parsed)
                (given_namespace (get_json "namespace" parsed)) s)
        | inr e ↦ rw (e, execute_parsed) refl
      ]

  -- Whatever the query, `KubernetesTool.execute` leaves the cluster as it was.
  pub execute-state : (query : String) (s : K.State) → (execute K J cfg c query s).1 ≡ s
  unfolding execute
  execute-state query s = execute_parsed-state (parse_k8s_query J query) s
