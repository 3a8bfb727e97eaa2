-- ===== src/Tools/Kubernetes.antt =====
-- app/tools/kubernetes_tool.py, `KubernetesTool`.
pub mod ReadOnly
use Prim.Native.String.{◌++◌ as ◌<>◌}
use enterprise_llm_assistant.Core.Exceptions.{app}
use enterprise_llm_assistant.Core.Settings.{Settings}
use enterprise_llm_assistant.Core.Json.{Json, null, text}
use enterprise_llm_assistant.Core.Json.Values.{JsonText, get_json, is_truthy, str}
use enterprise_llm_assistant.Clients.KubernetesApi.{Cluster, Answer}
use enterprise_llm_assistant.Clients.Kubernetes.{
  KubernetesClient, get_pod, list_pods, get_deployment, list_events, get_pod_logs,
}
use enterprise_llm_assistant.Clients.Kubernetes.Query.{parse_k8s_query}
use enterprise_llm_assistant.Prelude.{String, Bool, true, false, none, some, List, [], ◌∷◌}
use enterprise_llm_assistant.Prelude.{string_eq, ◌==◌, if◌then◌else◌, contains}
use enterprise_llm_assistant.Prelude.Text.{truthy, lower, strip, occurs_in}
use enterprise_llm_assistant.Prelude.Dict
use enterprise_llm_assistant.Prelude.Exec.{Result, ok, raised, Exec, raise, ◌>>=◌}

abbrev pub read_actions : List String
read_actions = "get" ∷ "describe" ∷ "list" ∷ "events" ∷ "logs" ∷ []

-- A namespace that is a blank text is none.
abbrev given_namespace : Json → Json
given_namespace (text s) = if truthy (strip s) then text s else null
given_namespace j = j

module _ (K : Cluster) (J : JsonText) (cfg : Settings) (c : KubernetesClient) where
  -- `str(parsed.get(key, default)).lower()`
  unfoldable pub word_at : String → String → Answer → String
  word_at key default d = elim (Dict.lookup key d) [ none ↦ default | some j ↦ lower (str J j) ]

  unsupported : String → String → Exec K.State Answer
  unsupported message kind = raise (app (message <> kind) 400)

  get_resource : String → Json → Json → Exec K.State Answer
  unfolding unsupported
  get_resource kind name namespace =
      if contains ("pod" ∷ "pods" ∷ []) kind
      then (if is_truthy J name
          then get_pod K J cfg c (str J name) namespace
          else list_pods K J cfg c namespace none)
      else if contains ("deployment" ∷ "deploy" ∷ "deployments" ∷ []) kind
      then (if is_truthy J name
          then get_deployment K J cfg c (str J name) namespace
          else raise (app "deployment name required" 400))
      else unsupported "Unsupported kind for get: " kind

  -- What `action` asks the cluster.
  inspect : String → String → Json → Json → Exec K.State Answer
  unfolding get_resource unsupported
  inspect action kind name namespace =
      if contains ("get" ∷ "describe" ∷ []) action
      then get_resource kind name namespace
      else if action == "list"
      then (if occurs_in "pod" kind
          then list_pods K J cfg c namespace none
          else unsupported "Unsupported kind for list: " kind)
      else if action == "events"
      then list_events K J cfg c namespace (if is_truthy J name then some (str J name) else none)
      else if action == "logs"
      then (if is_truthy J name
          then get_pod_logs K J cfg c (str J name) namespace 100
          else raise (app "pod name required for logs" 400))
      else unsupported "Unsupported action: " action

  execute_parsed : Result Answer → Exec K.State Answer
  unfolding inspect word_at
  execute_parsed (raised e) = raise e
  execute_parsed (ok parsed) =
      let action = word_at "action" "get" parsed in
      if contains read_actions action
      then inspect action (word_at "kind" "pod" parsed) (get_json "name" parsed)
          (given_namespace (get_json "namespace" parsed))
      else raise
          (app ("Action '" <> action <> "' is mutating; use playbook tools with approval") 400)

  unfoldable pub execute : String → Exec K.State Answer
  unfolding execute_parsed
  execute query = execute_parsed (parse_k8s_query J query)
