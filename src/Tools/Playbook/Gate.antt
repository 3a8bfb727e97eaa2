-- ===== src/Tools/Playbook/Gate.antt =====
-- `K8sPlaybookTool` changes the cluster only when it is told that the call is approved, and then by one patch.
use enterprise_llm_assistant.Core.Settings.{Settings}
use enterprise_llm_assistant.Core.Json.{Json}
use enterprise_llm_assistant.Core.Json.Values.{JsonText, get_json, is_truthy, str, int_of}
use enterprise_llm_assistant.Clients.KubernetesApi.{Cluster, Answer}
use enterprise_llm_assistant.Clients.Kubernetes.{
  KubernetesClient, namespace_of, restart_body, scale_body, restart_deployment, scale_deployment,
}
use enterprise_llm_assistant.Clients.Kubernetes.Patches.{scale_deployment-bounded}
use enterprise_llm_assistant.Prelude.{ℕ, ◌≤◌, ◌⊎◌, ==_cases}
use enterprise_llm_assistant.Prelude.Int.{ℤ, pos}
use enterprise_llm_assistant.Clients.Kubernetes.Query.{parse_k8s_query, json_dict}
use enterprise_llm_assistant.Prelude.{
  String, Bool, true, false, none, ◌≡◌, ◌≢◌, refl, ◌∙◌, arith, inl, inr,
}
use enterprise_llm_assistant.Prelude.{string_eq, Bool-cases}
use enterprise_llm_assistant.Prelude.Text.{strip}
use enterprise_llm_assistant.Prelude.Dict
use enterprise_llm_assistant.Prelude.Exec.{Result, ok, raised}
use enterprise_llm_assistant.Tools.Playbook.{
  parse, proposed, execute_parsed, execute, action_of, play, scale_to, is_null,
}

-- Whether a call that was parsed says that it is approved.
abbrev pub approved_in : JsonText → Result Answer → Bool
approved_in J (raised e) = false
approved_in J (ok payload) = is_truthy J (get_json "approved" payload)

proposed-approved :
    (J : JsonText) (query : String) (r : Result Answer) → approved_in J (proposed J query r) ≡ false
unfolding proposed get_json Dict.lookup is_truthy string_eq
proposed-approved J query (raised e) = refl
proposed-approved J query (ok parsed) = refl

module _ (K : Cluster) (J : JsonText) (cfg : Settings) (c : KubernetesClient) where
  unapproved_parsed :
      (now : String) (r : Result Answer) (s : K.State)
      → approved_in J r ≡ false
      → (execute_parsed K J cfg c now r s).1 ≡ s
  unfolding execute_parsed
  unapproved_parsed now (raised e) s unapproved = refl
  unapproved_parsed now (ok payload) s unapproved = rw unapproved

  -- A call whose dict does not say that it is approved leaves the cluster as it was.
  pub execute-unapproved :
      (now query : String) (s : K.State)
      → approved_in J (parse J query) ≡ false
      → (execute K J cfg c now query s).1 ≡ s
  unfolding execute
  execute-unapproved now query s unapproved = unapproved_parsed now (parse J query) s unapproved

  -- A call that is not a JSON dict cannot say that it is approved: it leaves the cluster as it was.
  pub text_command-state :
      (now query : String) (s : K.State)
      → json_dict J (strip query) ≡ none
      → (execute K J cfg c now query s).1 ≡ s
  unfolding parse
  text_command-state now query s words =
      execute-unapproved now query s
        (rw (words, parse) (proposed-approved J (strip query) (parse_k8s_query J (strip query))))

  -- The state after the restart of a deployment, and after its scaling.
  abbrev pub restarted : String → String → Json → K.State → K.State
  restarted now name namespace s =
      (K.patch_namespaced_deployment name (namespace_of K J cfg namespace)
        (restart_body K J cfg c now) s).1

  abbrev pub scaled_to : String → ℤ → Json → K.State → K.State
  scaled_to name replicas namespace s =
      (K.patch_namespaced_deployment_scale name (namespace_of K J cfg namespace)
        (scale_body K J cfg c replicas) s).1

  -- What a payload allows: one restart, or one scaling to a number within the bounds.
  abbrev pub Allowed : String → Answer → K.State → K.State → Type 0
  Allowed now payload s t =
      (is_truthy J (get_json "approved" payload) ≡ true)
      × (is_truthy J (get_json "name" payload) ≡ true)
      × (((action_of J payload ≡ "restart")
            × (t
                ≡ restarted now (str J (get_json "name" payload)) (get_json "namespace" payload) s))
          ⊎ ((action_of J payload ≡ "scale")
              × ((n : ℕ) × (int_of J (get_json "replicas" payload) ≡ ok (pos n))
                  × (n ≤ cfg.k8s_max_scale_replicas)
                  × (t
                      ≡ scaled_to (str J (get_json "name" payload)) (pos n)
                          (get_json "namespace" payload) s))))

  restart_state :
      (now name : String) (namespace : Json) (s : K.State)
      → (restart_deployment K J cfg c now name namespace s).1 ≢ s
      → (restart_deployment K J cfg c now name namespace s).1 ≡ restarted now name namespace s
  unfolding restart_deployment
  restart_state now name namespace s changed = ground arith

  scale_to_int :
      (name : String) (replicas namespace : Json) (s : K.State) (r : Result ℤ)
      → int_of J replicas ≡ r
      → (scale_to K J cfg c name replicas namespace s).1 ≢ s
      → (n : ℕ) × (int_of J replicas ≡ ok (pos n))
        × (n ≤ cfg.k8s_max_scale_replicas)
        × ((scale_to K J cfg c name replicas namespace s).1 ≡ scaled_to name (pos n) namespace s)
  unfolding scale_to
  scale_to_int name replicas namespace s (raised x) e changed = absurd (ground arith)
  scale_to_int name replicas namespace s (ok m) e changed = elim (Bool-cases (is_null replicas)) [
    | inl t ↦ absurd (changed (rw (t, scale_to) refl))
    | inr t ↦
        let same : (scale_to K J cfg c name replicas namespace s).1
            ≡ (scale_deployment K J cfg c name m namespace s).1 =
          ground arith in
        let (n, p, bound, patched) =
          scale_deployment-bounded K J cfg c name m namespace s (λ q. changed (same ∙ q)) in
        (n, rw (← p) e, bound, same ∙ patched ∙ rw p refl)
  ]

  play-Allowed :
      (now : String) (payload : Answer) (s : K.State)
      → is_truthy J (get_json "approved" payload) ≡ true
      → (play K J cfg c now payload s).1 ≢ s
      → Allowed now payload s (play K J cfg c now payload s).1
  unfolding play
  play-Allowed now payload s approved changed =
      let name = str J (get_json "name" payload) in
      let namespace = get_json "namespace" payload in
      elim (Bool-cases (is_truthy J (get_json "name" payload))) [
        | inr e ↦ absurd (changed (rw (e, play) refl))
        | inl named ↦ elim (==_cases (action_of J payload) "restart") [
          | inl (e, restart) ↦
              let same : (play K J cfg c now payload s).1
                  ≡ (restart_deployment K J cfg c now name namespace s).1 =
                rw (named, e, play) refl in
              (
                approved,
                named,
                inl (restart, same ∙ restart_state now name namespace s (λ q. changed (same ∙ q))),
              )
          | inr (e, other) ↦ elim (==_cases (action_of J payload) "scale") [
            | inr (f, neither) ↦ absurd (changed (rw (named, e, f, play) refl))
            | inl (f, scale) ↦
                let same : (play K J cfg c now payload s).1
                    ≡ (scale_to K J cfg c name (get_json "replicas" payload) namespace s).1 =
                  rw (named, e, f, play) refl in
                let (n, p, bound, patched) =
                  scale_to_int name (get_json "replicas" payload) namespace s
                    (int_of J (get_json "replicas" payload)) refl (λ q. changed (same ∙ q)) in
                (approved, named, inr (scale, (n, p, bound, same ∙ patched)))
          ]
        ]
      ]

  parsed-Allowed :
      (now : String) (r : Result Answer) (s : K.State)
      → (execute_parsed K J cfg c now r s).1 ≢ s
      → (payload : Answer) × (r ≡ ok payload)
        × Allowed now payload s (execute_parsed K J cfg c now r s).1
  unfolding execute_parsed
  parsed-Allowed now (raised e) s changed = absurd (changed refl)
  parsed-Allowed now (ok payload) s changed =
      elim (Bool-cases (is_truthy J (get_json "approved" payload))) [
        | inl e ↦
            let same : (execute_parsed K J cfg c now (ok payload) s).1
                ≡ (play K J cfg c now payload s).1 =
              rw (e, execute_parsed) refl in
            (payload, refl, rw same (play-Allowed now payload s e (λ q. changed (same ∙ q))))
        | inr e ↦ absurd (changed (rw (e, execute_parsed) refl))
      ]

  -- A call that changes the cluster names a deployment and says that it is approved, and what it does is one
  -- restart of the deployment, or one scaling of it to a number of replicas that is at most
  -- `K8S_MAX_SCALE_REPLICAS`.
  pub execute-Allowed :
      (now query : String) (s : K.State)
      → (execute K J cfg c now query s).1 ≢ s
      → (payload : Answer) × (parse J query ≡ ok payload)
        × Allowed now payload s (execute K J cfg c now query s).1
  unfolding execute
  execute-Allowed now query s changed = parsed-Allowed now (parse J query) s changed
