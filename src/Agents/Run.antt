-- ===== src/Agents/Run.antt =====
-- `AgentService.run`: the loop of plans, calls and observations.
pub mod Safety
pub mod Steps
pub mod Proposal
use enterprise_llm_assistant.Core.Settings.{Settings}
use enterprise_llm_assistant.Core.Json.{Json, text, object}
use enterprise_llm_assistant.Core.Json.Values.{JsonText, dict_of, fields_of, get_json, is_truthy}
use enterprise_llm_assistant.Clients.KubernetesApi.{Cluster, Answer}
use enterprise_llm_assistant.Policies.Retry.{RetryPolicy}
use enterprise_llm_assistant.Repositories.Approvals
use enterprise_llm_assistant.Repositories.Approvals.{PendingApproval}
use enterprise_llm_assistant.Services.LlmService
use enterprise_llm_assistant.Services.LlmService.{Provider, Cache}
use enterprise_llm_assistant.Tools.Playbook
use enterprise_llm_assistant.Tools.Playbook.{pending_approval_marker}
use enterprise_llm_assistant.Tools.Router
use enterprise_llm_assistant.Tools.Router.{Tool, AgentStep, execute_step}
use enterprise_llm_assistant.Prelude.{
  ℕ, zero, suc, ◌+◌, String, Bool, true, false, ◌&&◌, Option, none, some, List, [], ◌∷◌,
}
use enterprise_llm_assistant.Prelude.{string_eq, ◌==◌, if◌then◌else◌}
use enterprise_llm_assistant.Prelude.Text.{truthy, occurs_in}
use enterprise_llm_assistant.Prelude.Text.Words.{replace_char}
use enterprise_llm_assistant.Prelude.Dict
use enterprise_llm_assistant.Prelude.Dict.{Dict}
use enterprise_llm_assistant.Prelude.Exec.{Result, ok, raised, Exec, pure, ◌>>=◌, ◌>>◌}
use enterprise_llm_assistant.Agents.{
  AgentRequest, AgentResponse, AgentDraws, Progress, idle, observing, waiting_for, State, text_at,
  str_at, on_cluster, plan, prepare_playbook_input, put, single_quote,
}

module _ (P : Provider) (C : Cache) (K : Cluster) (J : JsonText) (cfg : Settings)
    (policy : RetryPolicy) (timeout : Option ℕ) (tools : Dict String Tool)
    (set_order : List String → List String) where
  abbrev Service : Type 0
  Service = State P C K J cfg policy timeout tools set_order

  -- The step of a call that waits for its approval.
  pending_step : String → String → PendingApproval → AgentStep
  pending_step thought action approval = record {
    thought = thought;
    action = action;
    observation = J.dumps (
        object (
          fields_of (
            ("status", text pending_approval_marker)
            ∷ ("approval_id", text approval.approval_id)
            ∷ ("message", text approval.reason)
            ∷ (
              "proposed",
              object (
                  fields_of (
                    ("tool", text approval.tool)
                    ∷ ("action", text approval.action)
                    ∷ ("args", object (fields_of approval.args))
                    ∷ [])),
            )
            ∷ [])));
  }

  -- The dict of an observation that says that an approval is pending.
  announced : AgentStep → Option Answer
  announced step =
      if occurs_in pending_approval_marker step.observation && step.action == "k8s_playbook"
      then elim (J.loads (replace_char single_quote "\"" step.observation)) [
        | some (object fs) ↦ elim (get_json "status" (dict_of fs)) [
          | text status ↦ if status == pending_approval_marker then some (dict_of fs) else none
          | _ ↦ none
        ]
        | _ ↦ none
      ]
      else none

  -- `dict(value or {})`
  args_from : Json → Result Answer
  args_from (object fs) = ok (dict_of fs)
  args_from j = if is_truthy J j then J.dict_from j else ok []

  -- The approval that an observation announces.
  put_announced : AgentDraws → String → Answer → Exec Service PendingApproval
  unfolding args_from put
  put_announced d session_id found = do
    args ← (λ s. (args_from (get_json "args" found), s))
    let approval : PendingApproval = record {
      approval_id = d.approval_id;
      tool = "k8s_playbook";
      action = text_at J "proposed_action" "unknown" found;
      args = args;
      reason = text_at J "message" "Approval required" found;
      session_id = some session_id;
      created_at = d.now;
    }
    put P C K J cfg policy timeout tools set_order approval
    pure approval

  -- What follows a step: whether the loop stops, and its variables.
  after_step : AgentDraws → String → Progress → AgentStep → Exec Service (Bool × Progress)
  unfolding announced put_announced
  after_step d session_id p step = elim (announced step) [
    | some found ↦ do
      approval ← put_announced d session_id found
      pure (true, waiting_for approval (observing step p))
    | none ↦
        if step.action == "finish"
        then pure (true, record (observing step p) { answer = step.observation })
        else pure (false, observing step p)
  ]

  -- The action with its input, after the playbook was looked at.
  act :
      AgentDraws
      → String
      → ℕ
      → Progress
      → String
      → String
      → String × Option PendingApproval
      → Exec Service (Bool × Progress)
  unfolding after_step pending_step
  act d session_id turn p thought action (tool_input, some approval) =
      pure (true, waiting_for approval (observing (pending_step thought action approval) p))
  act d session_id turn p thought action (tool_input, none) = do
    step ←
        on_cluster P C K J cfg policy timeout tools set_order
          (execute_step K J cfg tools (d.restarted_at turn) thought action tool_input)
    after_step d session_id p step

  -- The action of a plan. Only a call of the playbook is looked at first.
  perform :
      AgentDraws
      → AgentRequest
      → String
      → ℕ
      → Progress
      → String
      → String
      → String
      → Exec Service (Bool × Progress)
  unfolding act
  perform d request session_id turn p thought action tool_input = do
    prepared ←
        (if action == "k8s_playbook"
          then prepare_playbook_input P C K J cfg policy timeout tools set_order d tool_input
              (set_order request.approved_action_ids) session_id thought
          else pure (tool_input, none))
    act d session_id turn p thought action prepared

  -- One turn of the loop.
  iteration : AgentDraws → AgentRequest → String → ℕ → Progress → Exec Service (Bool × Progress)
  unfolding perform
  iteration d request session_id turn p = do
    planned ←
        plan P C K J cfg policy timeout tools set_order (d.clock turn) request.goal p.observations
    perform d request session_id turn p (str_at J "thought" "" planned)
        (str_at J "action" "finish" planned) (str_at J "input" "" planned)

  -- The turns that are left, each of which may stop the loop.
  turns : AgentDraws → AgentRequest → String → ℕ → ℕ → Progress → Exec Service Progress
  unfolding iteration
  turns d request session_id turn zero p = pure p
  turns d request session_id turn (suc left) p = do
    (stopped, p') ← iteration d request session_id turn p
    let rest = turns d request session_id (turn + 1) left p'
    (if stopped then pure p' else rest)

  last_observation : List AgentStep → String
  last_observation [] = ""
  last_observation (step ∷ []) = step.observation
  last_observation (step ∷ next ∷ steps) = last_observation (next ∷ steps)

  -- `request.session_id or str(uuid4())`
  unfoldable pub session_of : AgentDraws → AgentRequest → String
  session_of d request = elim request.session_id [
    | none ↦ d.session_id
    | some id ↦ if truthy id then id else d.session_id
  ]

  -- `run`
  unfoldable pub run : AgentDraws → AgentRequest → Exec Service AgentResponse
  unfolding turns last_observation session_of
  run d request = do
    p ← turns d request (session_of d request) 0 request.max_iterations idle
    pure (record {
      answer = if truthy p.answer then p.answer else last_observation p.steps;
      steps = p.steps;
      session_id = session_of d request;
      pending_approvals = p.pending;
    })
