-- ===== src/Agents/Run/Proposal.antt =====
-- A run whose model asks for a playbook stops, and leaves a proposal.
use enterprise_llm_assistant.Core.Settings.{Settings}
use enterprise_llm_assistant.Core.Json.Values.{JsonText}
use enterprise_llm_assistant.Clients.KubernetesApi.{Cluster, Answer}
use enterprise_llm_assistant.Clients.Kubernetes.{KubernetesClient, kubernetes_client}
use enterprise_llm_assistant.Policies.Retry.{RetryPolicy}
use enterprise_llm_assistant.Repositories.Approvals
use enterprise_llm_assistant.Repositories.Approvals.{PendingApproval}
use enterprise_llm_assistant.Services.LlmService.{Provider, Cache}
use enterprise_llm_assistant.Tools.Playbook
use enterprise_llm_assistant.Tools.Playbook.{args_of}
use enterprise_llm_assistant.Tools.Router.{Tool}
use enterprise_llm_assistant.Agents.{
  AgentRequest, AgentResponse, AgentDraws, State, str_at, text_at, plan, prepare_playbook_input,
  first_pending, idle, observing, waiting_for,
}
use enterprise_llm_assistant.Agents.Run.{run, session_of, pending_step, last_observation}
use enterprise_llm_assistant.Agents.Run.Safety.{plan-keeps}
use enterprise_llm_assistant.Prelude.{
  ℕ, suc, String, Option, none, some, List, [], ◌∷◌, ◌≡◌, refl, arith,
}
use enterprise_llm_assistant.Prelude.{string_eq, if◌then◌else◌, ==_refl}
use enterprise_llm_assistant.Prelude.Text.{truthy}
use enterprise_llm_assistant.Prelude.Dict
use enterprise_llm_assistant.Prelude.Dict.{Dict}
use enterprise_llm_assistant.Prelude.Exec.{ok}

module _ (P : Provider) (C : Cache) (K : Cluster) (J : JsonText) (cfg : Settings)
    (policy : RetryPolicy) (timeout : Option ℕ) (tools : Dict String Tool)
    (set_order : List String → List String) where
  abbrev Service : Type 0
  Service = State P C K J cfg policy timeout tools set_order

  -- The approval that a parsed call waits for.
  abbrev pub proposal : AgentDraws → AgentRequest → Answer → Answer → PendingApproval
  proposal d request planned parsed = record {
    approval_id = d.approval_id;
    tool = "k8s_playbook";
    action = text_at J "action" "unknown" parsed;
    args = args_of parsed;
    reason =
        if truthy (str_at J "thought" "" planned)
        then str_at J "thought" "" planned
        else "Mutating playbook requires approval";
    session_id = some (session_of P C K J cfg policy timeout tools set_order d request);
    created_at = d.now;
  }

  -- If the first plan calls the playbook with an input that can be parsed, the client of the tool can be made, and no
  -- approved id has a pending item, the run ends with the one pending approval of this call, which is stored under its
  -- id; the approved items and the cluster are as they were.
  pub run-proposes :
      (d : AgentDraws) (request : AgentRequest) (left : ℕ) (planned parsed : Answer)
      (c : KubernetesClient) (s : Service)
      → request.max_iterations ≡ suc left
      → (plan P C K J cfg policy timeout tools set_order (d.clock 0) request.goal [] s).0
        ≡ ok planned
      → str_at J "action" "finish" planned ≡ "k8s_playbook"
      → kubernetes_client K J cfg ≡ ok c
      → Playbook.parse J (str_at J "input" "" planned) ≡ ok parsed
      → first_pending P C K J cfg policy timeout tools set_order
          (set_order request.approved_action_ids)
          s.approvals
        ≡ none
      → (response : AgentResponse) × ((run P C K J cfg policy timeout tools set_order d request s).0
          ≡ ok response)
        × (response.pending_approvals ≡ proposal d request planned parsed ∷ [])
        × (Dict.lookup d.approval_id
              (run P C K J cfg policy timeout tools set_order d request s).1.approvals.pending
            ≡ some (proposal d request planned parsed))
        × ((run P C K J cfg policy timeout tools set_order d request s).1.approvals.approved
            ≡ s.approvals.approved)
        × ((run P C K J cfg policy timeout tools set_order d request s).1.cluster ≡ s.cluster)
  unfolding run prepare_playbook_input Approvals.put
  run-proposes d request left planned parsed c s turns made playbook client input unknown =
      let kept =
        plan-keeps P C K J cfg policy timeout tools set_order (d.clock 0) request.goal [] s in
      let approval = proposal d request planned parsed in
      let p = waiting_for approval (
        observing
          (pending_step P C K J cfg policy timeout tools set_order (str_at J "thought" "" planned)
            "k8s_playbook" approval)
          idle) in
      let stored = Dict.lookup-insert d.approval_id d.approval_id approval s.approvals.pending in
      (
        record {
          answer =
              if truthy p.answer
              then p.answer
              else last_observation P C K J cfg policy timeout tools set_order p.steps;
          steps = p.steps;
          session_id = session_of P C K J cfg policy timeout tools set_order d request;
          pending_approvals = p.pending;
        },
        ground arith,
        refl,
        ground (arith, kept, stored, ==_refl d.approval_id),
        ground (arith, kept),
        ground (arith, kept),
      )
