-- ===== src/Agents/Approve.antt =====
-- `AgentService.approve_and_execute`.
pub mod Effect
use enterprise_llm_assistant.Core.Settings.{Settings}
use enterprise_llm_assistant.Core.Json.{object}
use enterprise_llm_assistant.Core.Json.Values.{JsonText, fields_of}
use enterprise_llm_assistant.Clients.KubernetesApi.{Cluster, Answer}
use enterprise_llm_assistant.Policies.Retry.{RetryPolicy}
use enterprise_llm_assistant.Repositories.Approvals
use enterprise_llm_assistant.Services.LlmService
use enterprise_llm_assistant.Services.LlmService.{Provider, Cache}
use enterprise_llm_assistant.Tools.Playbook
use enterprise_llm_assistant.Tools.Router
use enterprise_llm_assistant.Tools.Router.{Tool, playbook_tool}
use enterprise_llm_assistant.Prelude.{ℕ, String, Bool, true, false, Option, none, some, List}
use enterprise_llm_assistant.Prelude.{string_eq}
use enterprise_llm_assistant.Prelude.Dict
use enterprise_llm_assistant.Prelude.Dict.{Dict}
use enterprise_llm_assistant.Prelude.Exec.{Result, ok, raised, Exec, pure, ◌>>=◌, ◌>>◌}
use enterprise_llm_assistant.Agents.{State, Approved, on_cluster, approve}

module _ (P : Provider) (C : Cache) (K : Cluster) (J : JsonText) (cfg : Settings)
    (policy : RetryPolicy) (timeout : Option ℕ) (tools : Dict String Tool)
    (set_order : List String → List String) where
  abbrev Service : Type 0
  Service = State P C K J cfg policy timeout tools set_order

  -- The playbook tool, or what stands in its place.
  execute_playbook : String → String → Exec Service Answer
  execute_playbook now payload =
      on_cluster P C K J cfg policy timeout tools set_order
        (elim (Dict.lookup "k8s_playbook" tools) [
          | some (playbook_tool c) ↦ Playbook.execute K J cfg c now payload
          | _ ↦ Router.execute K J cfg tools now "k8s_playbook" payload
        ])

  execute_payload : String → String → Option Answer → Exec Service Approved
  unfolding execute_playbook
  execute_payload now approval_id none =
      pure (record { status = "not_approved"; approval_id = approval_id; result = none })
  execute_payload now approval_id (some payload) = do
    result ← execute_playbook now (J.dumps (object (fields_of payload)))
    pure (record { status = "executed"; approval_id = approval_id; result = some result })

  unfoldable pub approve_and_execute : String → String → Exec Service Approved
  unfolding execute_payload approve
  approve_and_execute now approval_id = do
    item ← approve P C K J cfg policy timeout tools set_order approval_id
    (λ s. elim item [
      | none ↦ (ok (record { status = "not_found"; approval_id = approval_id; result = none }), s)
      | some _ ↦
          execute_payload now approval_id
            (Approvals.consume_approved_payload approval_id s.approvals) s
    ])
