-- ===== src/Agents.antt =====
-- app/agents: `Planner` and `AgentService`, with the models of app/models/agent.py. The order in which Python goes
-- through the set of approved ids is a parameter.
pub mod Run
pub mod Approve
use Prim.Native.String.{◌++◌ as ◌<>◌}
use enterprise_llm_assistant.Core.Settings.{Settings}
use enterprise_llm_assistant.Core.Json.{boolean, text, object}
use enterprise_llm_assistant.Core.Json.Values.{JsonText, fields_of, get_json, is_truthy, str, same}
use enterprise_llm_assistant.Clients.KubernetesApi.{Cluster, Answer}
use enterprise_llm_assistant.Clients.Kubernetes.{kubernetes_client}
use enterprise_llm_assistant.Policies.Retry.{RetryPolicy}
use enterprise_llm_assistant.Repositories.Approvals
use enterprise_llm_assistant.Repositories.Approvals.{PendingApproval, ApprovalStore, payload_of}
use enterprise_llm_assistant.Services.LlmService
use enterprise_llm_assistant.Services.LlmService.{Llm, Provider, Cache}
use enterprise_llm_assistant.Services.OutputParser.{parse_tool_response}
use enterprise_llm_assistant.Services.Prompts.{build_agent_prompt}
use enterprise_llm_assistant.Tools.Playbook
use enterprise_llm_assistant.Tools.Playbook.{args_of}
use enterprise_llm_assistant.Tools.Router
use enterprise_llm_assistant.Tools.Router.{Tool, AgentStep, list_tools}
use enterprise_llm_assistant.Prelude.{
  ℕ, ◌+◌, String, Bool, true, false, ◌&&◌, Option, none, some, List, [], ◌∷◌, ◌++◌,
}
use enterprise_llm_assistant.Prelude.{string_eq, ◌==◌, if◌then◌else◌}
use enterprise_llm_assistant.Prelude.Text.{truthy}
use enterprise_llm_assistant.Prelude.Dict
use enterprise_llm_assistant.Prelude.Dict.{Dict}
use enterprise_llm_assistant.Prelude.Exec.{Result, ok, raised, Exec, pure, ◌>>=◌, ◌>>◌}

pub record AgentRequest : Type 0 where
  pub goal : String
  pub session_id : Option String
  pub max_iterations : ℕ
  pub approved_action_ids : List String

pub record AgentResponse : Type 0 where
  pub answer : String
  pub steps : List AgentStep
  pub session_id : String
  pub pending_approvals : List PendingApproval

-- The service with the parts that it changes.
pub record Agent (L : Type 0) (C : Type 0) : Type 0 where
  pub llm : L
  pub approvals : ApprovalStore
  pub cluster : C

-- What a run draws: two ids, the time of the one approval that it can store, and for each turn the time that a restart is
-- given and the clock that the call of the model reads.
pub record AgentDraws : Type 0 where
  pub session_id : String
  pub approval_id : String
  pub now : String
  pub restarted_at : ℕ → String
  pub clock : ℕ → ℕ × ℕ

-- The variables of the loop of `run`.
pub record Progress : Type 0 where
  pub observations : List String
  pub steps : List AgentStep
  pub pending : List PendingApproval
  pub answer : String

abbrev single_quote : ℕ
single_quote = 39

abbrev pub idle : Progress
idle = record { observations = []; steps = []; pending = []; answer = "" }

abbrev pub observing : AgentStep → Progress → Progress
observing step p = record p {
  observations = p.observations ++ step.observation ∷ [];
  steps = p.steps ++ step ∷ [];
}

-- The approval that the loop stops at.
abbrev pub waiting_for : PendingApproval → Progress → Progress
waiting_for approval p = record p {
  pending = p.pending ++ approval ∷ [];
  answer =
      "A mutating Kubernetes playbook requires your approval before it can run. Approve action "
      <> approval.approval_id <> " to continue.";
}

-- The answer of `approve_and_execute`.
pub record Approved : Type 0 where
  pub status : String
  pub approval_id : String
  pub result : Option Answer

-- `d.get(key) or default`, as a text.
abbrev pub text_at : JsonText → String → String → Answer → String
text_at J key default d = if is_truthy J (get_json key d) then str J (get_json key d) else default

-- `str(d.get(key, default))`
abbrev pub str_at : JsonText → String → String → Answer → String
str_at J key default d = elim (Dict.lookup key d) [ none ↦ default | some j ↦ str J j ]

module _ (P : Provider) (C : Cache) (K : Cluster) (J : JsonText) (cfg : Settings)
    (policy : RetryPolicy) (timeout : Option ℕ) (tools : Dict String Tool)
    (set_order : List String → List String) where
  abbrev pub State : Type 0
  State = Agent (Llm P.State C.State) K.State

  abbrev pub M : Type 0 → Type 0
  M A = Exec State A

  abbrev pub on_llm : {A : Type 0} → Exec (Llm P.State C.State) A → M A
  on_llm m s = ((m s.llm).0, record s { llm = (m s.llm).1 })

  abbrev pub on_cluster : {A : Type 0} → Exec K.State A → M A
  on_cluster m s = ((m s.cluster).0, record s { cluster = (m s.cluster).1 })

  -- `Planner.plan`
  unfoldable pub plan : ℕ × ℕ → String → List String → M Answer
  plan (now, failed_at) goal observations = do
    result ← on_llm (
        LlmService.generate P C cfg policy timeout now failed_at
          (build_agent_prompt goal observations (list_tools tools)))
    (λ s. (parse_tool_response J result.content, s))

  -- The first of the ids that has a pending item.
  unfoldable pub first_pending : List String → ApprovalStore → Option (String × PendingApproval)
  first_pending [] a = none
  first_pending (id ∷ ids) a =
      let rest = first_pending ids a in
      elim (Approvals.get id a) [ none ↦ rest | some item ↦ some (id, item) ]

  -- The payload of an approved item; the arguments of the call stand for those of the item if they are the same.
  abbrev approved_payload : String → Answer → PendingApproval → Answer
  approved_payload action args item =
      if item.action == action && same J (object (fields_of item.args)) (object (fields_of args))
      then Dict.merged (("action", text action) ∷ ("approved", boolean true) ∷ []) args
      else payload_of item

  approve : String → M (Option PendingApproval)
  approve id s =
      let (item, a) = Approvals.approve id s.approvals in (ok item, record s { approvals = a })

  put : PendingApproval → M Unit
  put approval s = (ok tt, record s { approvals = (Approvals.put approval s.approvals).1 })

  -- `_prepare_playbook_input` of a call that was parsed.
  prepare_parsed :
      AgentDraws
      → String
      → List String
      → String
      → String
      → Answer
      → M (String × Option PendingApproval)
  unfolding approve put
  prepare_parsed d tool_input ids session_id thought parsed =
      let action = text_at J "action" "unknown" parsed in
      let args = args_of parsed in
      let approval : PendingApproval = record {
        approval_id = d.approval_id;
        tool = "k8s_playbook";
        action = action;
        args = args;
        reason = if truthy thought then thought else "Mutating playbook requires approval";
        session_id = some session_id;
        created_at = d.now;
      } in
      λ s. elim (first_pending ids s.approvals) [
        | some (id, item) ↦
            (do
              _ ← approve id
              pure (J.dumps (object (fields_of (approved_payload action args item))), none))
              s
        | none ↦ (do put approval; pure (tool_input, some approval)) s
      ]

  -- `_prepare_playbook_input`, which makes a tool, with a client of its own, to parse with.
  unfoldable pub prepare_playbook_input :
      AgentDraws → String → List String → String → String → M (String × Option PendingApproval)
  unfolding prepare_parsed
  prepare_playbook_input d tool_input ids session_id thought = do
    _ ← (λ s. (kubernetes_client K J cfg, s))
    parsed ← (λ s. (Playbook.parse J tool_input, s))
    prepare_parsed d tool_input ids session_id thought parsed
