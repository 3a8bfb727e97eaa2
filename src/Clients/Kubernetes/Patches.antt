-- ===== src/Clients/Kubernetes/Patches.antt =====
-- When `KubernetesClient` patches a deployment, and that it patches nothing else.
use enterprise_llm_assistant.Core.Settings.{Settings}
use enterprise_llm_assistant.Core.Json.{Json}
use enterprise_llm_assistant.Core.Json.Values.{JsonText}
use enterprise_llm_assistant.Clients.KubernetesApi.{Cluster}
use enterprise_llm_assistant.Clients.Kubernetes.{
  KubernetesClient, namespace_of, get_pod, list_pods, get_deployment, list_events, get_pod_logs,
  scale_deployment, scale_body,
}
use enterprise_llm_assistant.Prelude.{ℕ, String, Option, ◌≤◌, ◌≡◌, ◌≢◌, arith}
use enterprise_llm_assistant.Prelude.Int.{ℤ, pos, negsuc}

module _ (K : Cluster) (J : JsonText) (cfg : Settings) (c : KubernetesClient) where
  pub get_pod-state :
      (name : String) (namespace : Json) (s : K.State) → (get_pod K J cfg c name namespace s).1 ≡ s
  unfolding get_pod
  get_pod-state name namespace s = ground arith

  pub list_pods-state :
      (namespace : Json) (selector : Option String) (s : K.State)
      → (list_pods K J cfg c namespace selector s).1 ≡ s
  unfolding list_pods
  list_pods-state namespace selector s = ground arith

  pub get_deployment-state :
      (name : String) (namespace : Json) (s : K.State)
      → (get_deployment K J cfg c name namespace s).1 ≡ s
  unfolding get_deployment
  get_deployment-state name namespace s = ground arith

  pub list_events-state :
      (namespace : Json) (involved : Option String) (s : K.State)
      → (list_events K J cfg c namespace involved s).1 ≡ s
  unfolding list_events
  list_events-state namespace involved s = ground arith

  pub get_pod_logs-state :
      (name : String) (namespace : Json) (tail_lines : ℕ) (s : K.State)
      → (get_pod_logs K J cfg c name namespace tail_lines s).1 ≡ s
  unfolding get_pod_logs
  get_pod_logs-state name namespace tail_lines s = ground arith

  -- A scaling that changes the cluster is the patch to a number within the bounds.
  pub scale_deployment-bounded :
      (name : String) (replicas : ℤ) (namespace : Json) (s : K.State)
      → (scale_deployment K J cfg c name replicas namespace s).1 ≢ s
      → (n : ℕ) × (replicas ≡ pos n)
        × (n ≤ cfg.k8s_max_scale_replicas)
        × ((scale_deployment K J cfg c name replicas namespace s).1
            ≡ (K.patch_namespaced_deployment_scale name
                (namespace_of K J cfg namespace)
                (scale_body K J cfg c replicas)
                s).1)
  unfolding scale_deployment
  scale_deployment-bounded name (pos n) namespace s changed =
      (n, ground arith, ground arith, ground arith)
  scale_deployment-bounded name (negsuc n) namespace s changed = absurd (ground arith)
