-- ===== src/Clients/Kubernetes.antt =====
-- app/clients/kubernetes_client.py, `KubernetesClient`. The package `kubernetes` and the cluster behind it are a
-- parameter. A namespace is the value that the query gave, or null.
pub mod Query
pub mod Patches
use Prim.Native.String.{◌++◌ as ◌<>◌}
use enterprise_llm_assistant.Core.Exceptions.{app}
use enterprise_llm_assistant.Core.Settings.{Settings}
use enterprise_llm_assistant.Core.Json.{Json, boolean, number, text, array, object}
use enterprise_llm_assistant.Core.Json.Values.{
  JsonText, fields_of, items_of, text_or_null, number_or_null, is_truthy,
}
use enterprise_llm_assistant.Prelude.{
  ℕ, ◌+◌, String, Bool, true, false, not, ◌||◌, Option, none, some, [], ◌∷◌, ◌++◌,
}
use enterprise_llm_assistant.Prelude.{string_eq, ◌==◌, if◌then◌else◌, ltb, take}
use enterprise_llm_assistant.Clients.KubernetesApi.{
  Cluster, Answer, under, string_fields, container_fields, pod_items, condition_items,
  latest_events, event_items,
}
use enterprise_llm_assistant.Prelude.Int.{ℤ, pos, negsuc}
use enterprise_llm_assistant.Prelude.Text.{truthy, lower, decimal}
use enterprise_llm_assistant.Prelude.Exec.{Result, ok, raised, Exec, pure, raise, asks, ◌>>=◌, ◌>>◌}

-- `connected` says that `_core` and `_apps` are there.
pub record KubernetesClient : Type 0 where
  pub mode : String
  pub connected : Bool

module _ (K : Cluster) (J : JsonText) (cfg : Settings) where
  abbrev pub M : Type 0 → Type 0
  M A = Exec K.State A

  abbrev mocked : Result KubernetesClient
  mocked = ok (record { mode = "mock"; connected = false })

  -- An error while connecting leaves the mock mode.
  connected_by : String → Result (Unit {0}) → Result KubernetesClient
  connected_by mode (ok _) = ok (record { mode = mode; connected = true })
  connected_by mode (raised _) = mocked

  -- `_init_clients` in the mode `mode`.
  init_clients : String → Result KubernetesClient
  unfolding connected_by
  init_clients mode =
      if mode == "mock"
      then mocked
      else if not K.importable
      then raised (app "kubernetes package is required when K8S_AUTH_MODE is not mock" 500)
      else if mode == "incluster"
      then connected_by mode K.load_incluster_config
      else if mode == "kubeconfig"
      then connected_by mode (
          K.load_kube_config
            (if truthy cfg.kubeconfig_path then some cfg.kubeconfig_path else none))
      else mocked

  -- `KubernetesClient()`
  unfoldable pub kubernetes_client : Result KubernetesClient
  unfolding init_clients
  kubernetes_client =
      init_clients (lower (if truthy cfg.k8s_auth_mode then cfg.k8s_auth_mode else "mock"))

  unfoldable pub offline : KubernetesClient → Bool
  offline c = c.mode == "mock" || not c.connected

  -- `namespace or settings.K8S_DEFAULT_NAMESPACE`
  unfoldable pub namespace_of : Json → Json
  namespace_of namespace =
      if is_truthy J namespace then namespace else text cfg.k8s_default_namespace

  mock_resource : String → String → Json → Answer
  mock_resource kind name namespace =
      ("kind", text kind)
      ∷ ("name", text name)
      ∷ ("namespace", namespace)
      ∷ ("status", text "Running")
      ∷ ("replicas", number (pos 3))
      ∷ ("ready_replicas", number (pos 3))
      ∷ ("mock", boolean true)
      ∷ ("message", text "Mock Kubernetes response (K8S_AUTH_MODE=mock)")
      ∷ []

  module _ (c : KubernetesClient) where
    unfoldable pub get_pod : String → Json → M Answer
    unfolding namespace_of mock_resource offline string_fields container_fields
    get_pod name namespace =
        let ns = namespace_of namespace in
        if offline c then pure (mock_resource "Pod" name ns) else (do
          pod ← asks (K.read_namespaced_pod name ns)
          pure (
              ("kind", text "Pod")
              ∷ ("name", text pod.name)
              ∷ ("namespace", text pod.namespace)
              ∷ ("phase", text_or_null pod.phase)
              ∷ ("node", text_or_null pod.node_name)
              ∷ ("labels", object (fields_of (string_fields pod.labels)))
              ∷ ("container_statuses", array (items_of (container_fields pod.container_statuses)))
              ∷ []))

    unfoldable pub list_pods : Json → Option String → M Answer
    unfolding namespace_of mock_resource offline pod_items
    list_pods namespace label_selector =
        let ns = namespace_of namespace in
        if offline c
        then pure (
            ("kind", text "PodList")
            ∷ ("namespace", ns)
            ∷ (
              "items",
              array (items_of (object (fields_of (mock_resource "Pod" "demo-pod-0" ns)) ∷ [])),
            )
            ∷ ("mock", boolean true)
            ∷ [])
        else (do
          pods ← asks (K.list_namespaced_pod ns label_selector)
          pure (
              ("kind", text "PodList")
              ∷ ("namespace", ns)
              ∷ ("items", array (items_of (pod_items pods)))
              ∷ []))

    unfoldable pub get_deployment : String → Json → M Answer
    unfolding namespace_of mock_resource offline condition_items
    get_deployment name namespace =
        let ns = namespace_of namespace in
        if offline c then pure (mock_resource "Deployment" name ns) else (do
          dep ← asks (K.read_namespaced_deployment name ns)
          pure (
              ("kind", text "Deployment")
              ∷ ("name", text dep.name)
              ∷ ("namespace", text dep.namespace)
              ∷ ("replicas", number_or_null dep.replicas)
              ∷ ("ready_replicas", number_or_null dep.ready_replicas)
              ∷ ("available_replicas", number_or_null dep.available_replicas)
              ∷ ("conditions", array (items_of (condition_items dep.conditions)))
              ∷ []))

    field_selector : Option String → Option String
    field_selector none = none
    field_selector (some name) = if truthy name then some ("involvedObject.name=" <> name) else none

    -- `involved_name or "demo-pod-0"`
    involved_or_demo : Option String → String
    involved_or_demo none = "demo-pod-0"
    involved_or_demo (some name) = if truthy name then name else "demo-pod-0"

    unfoldable pub list_events : Json → Option String → M Answer
    unfolding namespace_of offline field_selector involved_or_demo event_items latest_events
    list_events namespace involved_name =
        let ns = namespace_of namespace in
        if offline c
        then pure (
            ("kind", text "EventList")
            ∷ ("namespace", ns)
            ∷ (
              "items",
              array (
                  items_of (
                    object (
                      fields_of (
                        ("type", text "Warning")
                        ∷ ("reason", text "Unhealthy")
                        ∷ ("message", text "Readiness probe failed (mock)")
                        ∷ ("involved_object", text (involved_or_demo involved_name))
                        ∷ []))
                    ∷ [])),
            )
            ∷ ("mock", boolean true)
            ∷ [])
        else (do
          events ← asks (K.list_namespaced_event ns (field_selector involved_name))
          pure (
              ("kind", text "EventList")
              ∷ ("namespace", ns)
              ∷ ("items", array (items_of (event_items (take 30 (latest_events events)))))
              ∷ []))

    abbrev logs_answer : String → Json → String → Answer
    logs_answer name ns logs =
        ("kind", text "PodLog") ∷ ("name", text name) ∷ ("namespace", ns) ∷ ("logs", text logs) ∷ []

    unfoldable pub get_pod_logs : String → Json → ℕ → M Answer
    unfolding namespace_of offline
    get_pod_logs name namespace tail_lines =
        let ns = namespace_of namespace in
        if offline c
        then pure (
            logs_answer name ns
              ("[mock] sample log lines for " <> name <> "\nERROR connection refused\n")
            ++ ("mock", boolean true) ∷ [])
        else (do
          logs ← asks (K.read_namespaced_pod_log name ns tail_lines)
          pure (logs_answer name ns logs))

    -- The annotation that makes a rolling restart, with the time of it.
    abbrev pub restart_body : String → Json
    restart_body restarted_at = under "spec" (
        under "template" (
          under "metadata"
            (under "annotations" (under "ops.enterprise-llm/restartedAt" (text restarted_at)))))

    abbrev pub restart_answer : String → Json → Answer
    restart_answer name ns =
        ("kind", text "DeploymentRestart")
        ∷ ("name", text name)
        ∷ ("namespace", ns)
        ∷ ("status", text "restarted")
        ∷ []

    unfoldable pub restart_deployment : String → String → Json → M Answer
    unfolding namespace_of offline
    restart_deployment restarted_at name namespace =
        let ns = namespace_of namespace in
        if offline c then pure (restart_answer name ns ++ ("mock", boolean true) ∷ []) else (do
          K.patch_namespaced_deployment name ns (restart_body restarted_at)
          pure (restart_answer name ns))

    -- `replicas < 0 or replicas > settings.K8S_MAX_SCALE_REPLICAS`
    out_of_bounds : ℤ → Bool
    out_of_bounds (negsuc n) = true
    out_of_bounds (pos n) = ltb cfg.k8s_max_scale_replicas n

    abbrev pub scale_body : ℤ → Json
    scale_body replicas = under "spec" (under "replicas" (number replicas))

    abbrev pub scale_answer : String → Json → ℤ → Answer
    scale_answer name ns replicas =
        ("kind", text "DeploymentScale")
        ∷ ("name", text name)
        ∷ ("namespace", ns)
        ∷ ("replicas", number replicas)
        ∷ ("status", text "scaled")
        ∷ []

    unfoldable pub scale_deployment : String → ℤ → Json → M Answer
    unfolding namespace_of offline out_of_bounds
    scale_deployment name replicas namespace =
        let ns = namespace_of namespace in
        if out_of_bounds replicas
        then raise
            (app ("replicas must be between 0 and " <> decimal cfg.k8s_max_scale_replicas) 400)
        else if offline c
        then pure (scale_answer name ns replicas ++ ("mock", boolean true) ∷ [])
        else (do
          K.patch_namespaced_deployment_scale name ns (scale_body replicas)
          pure (scale_answer name ns replicas))
