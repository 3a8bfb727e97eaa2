-- ===== src/Agents/Run/Steps.antt =====
-- The steps of a run, and the run that stops at a playbook.
use enterprise_llm_assistant.Core.Settings.{Settings}
use enterprise_llm_assistant.Core.Json.Values.{JsonText}
use enterprise_llm_assistant.Clients.KubernetesApi.{Cluster, Answer}
use enterprise_llm_assistant.Policies.Retry.{RetryPolicy}
use enterprise_llm_assistant.Repositories.Approvals.{PendingApproval}
use enterprise_llm_assistant.Services.LlmService.{Provider, Cache}
use enterprise_llm_assistant.Tools.Router.{Tool, AgentStep}
use enterprise_llm_assistant.Agents.{
  AgentRequest, AgentResponse, AgentDraws, Progress, idle, State, str_at,
}
use enterprise_llm_assistant.Agents.Run.{
  after_step, pending_step, act, perform, iteration, turns, run, session_of,
}
use enterprise_llm_assistant.Prelude.{
  ℕ, zero, suc, ◌+◌, ◌≤◌, String, Bool, true, false, Option, none, some, List, [], ◌∷◌, ◌≡◌, arith,
}
use enterprise_llm_assistant.Prelude.{string_eq, if◌then◌else◌, length, length-append}
use enterprise_llm_assistant.Prelude.Dict.{Dict}
use enterprise_llm_assistant.Prelude.Exec.{Exec, Result, ok, raised, continue, pure}

-- A statement about what comes back, if anything does.
abbrev Returned : {A : Type 0} → (A → Type 0) → Result A → Type 0
Returned Q (ok a) = Q a
Returned Q (raised e) = Unit

Returned-continue :
    {S A B : Type 0} (Q : B → Type 0) (r : Result A) (f : A → Exec S B) (t : S)
    → ((a : A) (u : S) → Returned Q (f a u).0)
    → Returned Q (continue r f t).0
Returned-continue Q (ok a) f t h = h a t
Returned-continue Q (raised e) f t h = tt

module _ (P : Provider) (C : Cache) (K : Cluster) (J : JsonText) (cfg : Settings)
    (policy : RetryPolicy) (timeout : Option ℕ) (tools : Dict String Tool)
    (set_order : List String → List String) where
  abbrev Service : Type 0
  Service = State P C K J cfg policy timeout tools set_order

  module _ (d : AgentDraws) (request : AgentRequest) (session_id : String) where
    -- At most one step more.
    abbrev OneMore : Progress → Bool × Progress → Type 0
    OneMore p (stopped, q) = length q.steps ≤ length p.steps + 1

    after_step-OneMore :
        (p : Progress) (step : AgentStep) (s : Service)
        → Returned
            (OneMore p)
            (after_step P C K J cfg policy timeout tools set_order d session_id p step s).0
    unfolding after_step
    after_step-OneMore p step s = ground (arith, length-append p.steps (step ∷ []))

    act-OneMore :
        (turn : ℕ) (p : Progress) (thought action : String) (x : String × Option PendingApproval)
        (s : Service)
        → Returned
            (OneMore p)
            (act P C K J cfg policy timeout tools set_order d session_id turn p thought action x
              s).0
    unfolding act
    act-OneMore turn p thought action (tool_input, some a) s = omega (
      arith,
      length-append {0} p.steps
          (pending_step P C K J cfg policy timeout tools set_order thought action a ∷ []),
    )
    act-OneMore turn p thought action (tool_input, none) s =
        Returned-continue (OneMore p) _
          (after_step P C K J cfg policy timeout tools set_order d session_id p) _
          (after_step-OneMore p)

    perform-OneMore :
        (turn : ℕ) (p : Progress) (thought action tool_input : String) (s : Service)
        → Returned
            (OneMore p)
            (perform P C K J cfg policy timeout tools set_order d request session_id turn p thought
              action tool_input s).0
    unfolding perform
    perform-OneMore turn p thought action tool_input s =
        Returned-continue (OneMore p) _
          (act P C K J cfg policy timeout tools set_order d session_id turn p thought action) _
          (act-OneMore turn p thought action)

    abbrev perform_plan : ℕ → Progress → Answer → Exec Service (Bool × Progress)
    perform_plan turn p planned =
        perform P C K J cfg policy timeout tools set_order d request session_id turn p
          (str_at J "thought" "" planned) (str_at J "action" "finish" planned)
          (str_at J "input" "" planned)

    iteration-OneMore :
        (turn : ℕ) (p : Progress) (s : Service)
        → Returned
            (OneMore p)
            (iteration P C K J cfg policy timeout tools set_order d request session_id turn p s).0
    unfolding iteration
    iteration-OneMore turn p s = Returned-continue (OneMore p) _ (perform_plan turn p) _ (λ planned.
        perform-OneMore turn p (str_at J "thought" "" planned) (str_at J "action" "finish" planned)
          (str_at J "input" "" planned))

    -- At most `left` steps more.
    abbrev AtMost : ℕ → Progress → Progress → Type 0
    AtMost left p q = length q.steps ≤ length p.steps + left

    abbrev go_on : ℕ → ℕ → Bool × Progress → Exec Service Progress
    go_on turn left x =
        if x.0
        then pure x.1
        else turns P C K J cfg policy timeout tools set_order d request session_id (turn + 1) left
            x.1

    weaker :
        (left : ℕ) (p q : Progress) (r : Result Progress)
        → length q.steps ≤ length p.steps + 1
        → Returned (AtMost left q) r
        → Returned (AtMost (suc left) p) r
    weaker left p q (ok x) h k = omega arith
    weaker left p q (raised e) h k = tt

    go_on-AtMost :
        (turn left : ℕ) (p : Progress) (t : Service) (r : Result (Bool × Progress))
        → ((q : Progress) (u : Service)
            → Returned
                (AtMost left q)
                (turns P C K J cfg policy timeout tools set_order d request session_id
                  (turn + 1)
                  left
                  q
                  u).0)
        → Returned (OneMore p) r
        → Returned (AtMost (suc left) p) (continue r (go_on turn left) t).0
    go_on-AtMost turn left p t (raised x) later h = tt
    go_on-AtMost turn left p t (ok (true, q)) later h = omega arith
    go_on-AtMost turn left p t (ok (false, q)) later h = weaker left p q _ h (later q t)

    turns-AtMost :
        (turn left : ℕ) (p : Progress) (s : Service)
        → Returned
            (AtMost left p)
            (turns P C K J cfg policy timeout tools set_order d request session_id turn left p s).0
    unfolding turns
    turns-AtMost turn zero p s = omega arith
    turns-AtMost turn (suc left) p s =
        let (r, t) =
          iteration P C K J cfg policy timeout tools set_order d request session_id turn p s in
        go_on-AtMost turn left p t r (turns-AtMost (turn + 1) left) (iteration-OneMore turn p s)

  -- A run that returns has taken at most `max_iterations` steps.
  pub run-steps :
      (d : AgentDraws) (request : AgentRequest) (response : AgentResponse) (s : Service)
      → (run P C K J cfg policy timeout tools set_order d request s).0 ≡ ok response
      → length response.steps ≤ request.max_iterations
  unfolding run
  run-steps d request response s returned = ground (
    arith,
    turns-AtMost d request (session_of P C K J cfg policy timeout tools set_order d request) 0
        request.max_iterations idle s,
  )
