-- ===== src/Agents/Run/Safety.antt =====
-- `AgentService.run` changes the cluster only with an approved id that has a pending item.
use enterprise_llm_assistant.Core.Settings.{Settings}
use enterprise_llm_assistant.Core.Json.Values.{JsonText}
use enterprise_llm_assistant.Clients.KubernetesApi.{Cluster, Answer}
use enterprise_llm_assistant.Policies.Retry.{RetryPolicy}
use enterprise_llm_assistant.Services.LlmService.{Provider, Cache}
use enterprise_llm_assistant.Tools.Router.{Tool, AgentStep, execute_step, tool_router}
use enterprise_llm_assistant.Tools.Router.Names.{
  Named, tool_router-Named, execute_step-state, execute_step-action,
}
use enterprise_llm_assistant.Agents.{
  AgentRequest, AgentDraws, Progress, idle, State, str_at, plan, prepare_playbook_input,
  first_pending,
}
use enterprise_llm_assistant.Agents.Run.{
  announced, after_step, act, perform, iteration, turns, run, session_of,
}
use enterprise_llm_assistant.Prelude.{
  ℕ, zero, suc, ◌+◌, String, Bool, true, false, Option, none, List, ◌≡◌, ◌≢◌, refl, sym, ◌∙◌, arith,
  inl, inr,
}
use enterprise_llm_assistant.Prelude.{string_eq, ==_cases, if◌then◌else◌}
use enterprise_llm_assistant.Prelude.Dict.{Dict}
use enterprise_llm_assistant.Prelude.Exec.{Exec, Result, ok, raised, continue, pure}

module _ (P : Provider) (C : Cache) (K : Cluster) (J : JsonText) (cfg : Settings)
    (policy : RetryPolicy) (timeout : Option ℕ) (tools : Dict String Tool)
    (set_order : List String → List String) where
  abbrev Service : Type 0
  Service = State P C K J cfg policy timeout tools set_order

  pub plan-keeps :
      (clock : ℕ × ℕ) (goal : String) (observations : List String) (s : Service)
      → let t = (plan P C K J cfg policy timeout tools set_order clock goal observations s).1 in
        (t.cluster ≡ s.cluster) × (t.approvals ≡ s.approvals)
  unfolding plan
  plan-keeps clock goal observations s = ground arith

  -- An id of the request has no pending item.
  abbrev pub Unknown : AgentRequest → Service → Type 0
  Unknown request s =
      first_pending P C K J cfg policy timeout tools set_order
        (set_order request.approved_action_ids) s.approvals
      ≡ none

  -- The cluster is as it was, and so are the approvals unless the loop stops.
  abbrev Unharmed : Service → Result (Bool × Progress) × Service → Type 0
  Unharmed s (r, t) =
      (t.cluster ≡ s.cluster) × ((p : Progress) → r ≡ ok (false, p) → t.approvals ≡ s.approvals)

  module _ (named : Named tools) (d : AgentDraws) (request : AgentRequest)
      (session_id : String) where
    announced_other :
        (step : AgentStep)
        → step.action ≢ "k8s_playbook"
        → announced P C K J cfg policy timeout tools set_order step ≡ none
    unfolding announced
    announced_other step other = ground arith

    -- The rest of a turn after a step with another action than the playbook.
    after_step-Unharmed :
        (p : Progress) (step : AgentStep) (s : Service)
        → step.action ≢ "k8s_playbook"
        → (after_step P C K J cfg policy timeout tools set_order d session_id p step s).1 ≡ s
    unfolding after_step
    after_step-Unharmed p step s other = ground (arith, announced_other step other)

    -- The call of a tool that is not the playbook, by what it answers.
    act_of-state :
        (turn : ℕ) (p : Progress) (thought action tool_input : String) (s : Service)
        (r : Result AgentStep)
        → (execute_step K J cfg tools (d.restarted_at turn) thought action tool_input s.cluster).0
          ≡ r
        → action ≢ "k8s_playbook"
        → let t =
            (act P C K J cfg policy timeout tools set_order d session_id turn p thought action
              (tool_input, none)
              s).1 in
          (t.cluster ≡ s.cluster) × (t.approvals ≡ s.approvals)
    unfolding act
    act_of-state turn p thought action tool_input s (raised x) e other = ground (
      arith,
      execute_step-state K J cfg tools named (d.restarted_at turn) thought action tool_input
          s.cluster other,
    )
    act_of-state turn p thought action tool_input s (ok step) e other =
        let after : Service = record s {
          cluster =
              (execute_step K J cfg tools (d.restarted_at turn) thought action tool_input
                s.cluster).1;
        } in
        let made =
          execute_step-action K J cfg tools named (d.restarted_at turn) thought action tool_input
            s.cluster step e in
        ground (
          arith,
          execute_step-state K J cfg tools named (d.restarted_at turn) thought action tool_input
              s.cluster other,
          after_step-Unharmed p step after (λ q. other (sym made ∙ q)),
        )

    perform-Unharmed :
        (turn : ℕ) (p : Progress) (thought action tool_input : String) (s : Service)
        → Unknown request s
        → Unharmed s (
            perform P C K J cfg policy timeout tools set_order d request session_id turn p thought
              action tool_input s)
    unfolding perform prepare_playbook_input
    perform-Unharmed turn p thought action tool_input s unknown =
        elim (==_cases action "k8s_playbook") [
          | inl (e, playbook) ↦ (ground arith, λ q stop. ground arith)
          | inr (e, other) ↦
              let kept =
                act_of-state turn p thought action tool_input s
                  (execute_step K J cfg tools (d.restarted_at turn) thought action tool_input
                    s.cluster).0
                  refl other in
              (ground arith, λ q stop. ground arith)
        ]

    abbrev perform_plan : ℕ → Progress → Answer → Exec Service (Bool × Progress)
    perform_plan turn p planned =
        perform P C K J cfg policy timeout tools set_order d request session_id turn p
          (str_at J "thought" "" planned) (str_at J "action" "finish" planned)
          (str_at J "input" "" planned)

    planned-Unharmed :
        (turn : ℕ) (p : Progress) (s t : Service) (r : Result Answer)
        → Unknown request s
        → t.cluster ≡ s.cluster
        → t.approvals ≡ s.approvals
        → Unharmed s (continue r (perform_plan turn p) t)
    planned-Unharmed turn p s t (raised x) unknown e f = (e, λ q stop. f)
    planned-Unharmed turn p s t (ok planned) unknown e f =
        let (kept, approvals) =
          perform-Unharmed turn p (str_at J "thought" "" planned)
            (str_at J "action" "finish" planned) (str_at J "input" "" planned) t (rw f unknown) in
        (kept ∙ e, λ q stop. approvals q stop ∙ f)

    iteration-Unharmed :
        (turn : ℕ) (p : Progress) (s : Service)
        → Unknown request s
        → Unharmed s
            (iteration P C K J cfg policy timeout tools set_order d request session_id turn p s)
    unfolding iteration
    iteration-Unharmed turn p s unknown =
        let (r, t) =
          plan P C K J cfg policy timeout tools set_order (d.clock turn) request.goal p.observations
            s in
        let (e, f) = plan-keeps (d.clock turn) request.goal p.observations s in
        planned-Unharmed turn p s t r unknown e f

    -- What follows a turn.
    abbrev go_on : ℕ → ℕ → Bool × Progress → Exec Service Progress
    go_on turn left x =
        if x.0
        then pure x.1
        else turns P C K J cfg policy timeout tools set_order d request session_id (turn + 1) left
            x.1

    go_on-cluster :
        (turn left : ℕ) (s t : Service) (r : Result (Bool × Progress))
        → ((p : Progress) (u : Service)
            → Unknown request u
            → (turns P C K J cfg policy timeout tools set_order d request session_id
                (turn + 1)
                left
                p
                u).1.cluster
              ≡ u.cluster)
        → Unknown request s
        → Unharmed s (r, t)
        → (continue r (go_on turn left) t).1.cluster ≡ s.cluster
    go_on-cluster turn left s t (raised x) later unknown (e, f) = e
    go_on-cluster turn left s t (ok (true, p)) later unknown (e, f) = e
    go_on-cluster turn left s t (ok (false, p)) later unknown (e, f) =
        later p t (rw (f p refl) unknown) ∙ e

    turns-cluster :
        (turn left : ℕ) (p : Progress) (s : Service)
        → Unknown request s
        → (turns P C K J cfg policy timeout tools set_order d request session_id turn left p
            s).1.cluster
          ≡ s.cluster
    unfolding turns
    turns-cluster turn zero p s unknown = refl
    turns-cluster turn (suc left) p s unknown =
        let (r, t) =
          iteration P C K J cfg policy timeout tools set_order d request session_id turn p s in
        go_on-cluster turn left s t r (turns-cluster (turn + 1) left) unknown
          (iteration-Unharmed turn p s unknown)

module _ (P : Provider) (C : Cache) (K : Cluster) (J : JsonText) (cfg : Settings)
    (policy : RetryPolicy) (timeout : Option ℕ) (available : List Tool)
    (set_order : List String → List String) where
  abbrev tools_of : Dict String Tool
  tools_of = tool_router available

  -- Whatever the model plans, and whatever its plans are answered with, a run with no approved id that
  -- has a pending item leaves the cluster as it was.
  pub run-cluster :
      (d : AgentDraws) (request : AgentRequest)
      (s : State P C K J cfg policy timeout tools_of set_order)
      → first_pending P C K J cfg policy timeout tools_of set_order
          (set_order request.approved_action_ids)
          s.approvals
        ≡ none
      → (run P C K J cfg policy timeout tools_of set_order d request s).1.cluster ≡ s.cluster
  unfolding run
  run-cluster d request s unknown = ground (
    arith,
    turns-cluster P C K J cfg policy timeout tools_of set_order (tool_router-Named available) d
        request (session_of P C K J cfg policy timeout tools_of set_order d request) 0
        request.max_iterations idle s unknown,
  )
