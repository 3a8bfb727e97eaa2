-- ===== src/Examples/Agents.antt =====
-- Tools and agents on the small cluster.
use enterprise_llm_assistant.Services.OutputParser.{fenced, parse_json}
use enterprise_llm_assistant.Prelude.Text.Words.{partition, split}
use enterprise_llm_assistant.Core.Json.Values.{dict_of}
use enterprise_llm_assistant.Tools.Router.{execute_step}
use enterprise_llm_assistant.Prelude.Text.{occurs_in}
use enterprise_llm_assistant.Core.Json.Values.{fields_of}
use enterprise_llm_assistant.Clients.Kubernetes.Query.{json_dict, parse_k8s_query}
use enterprise_llm_assistant.Clients.Kubernetes.Query.RoundTrip.{
  scale_command, scaling, parse-scale_command,
}
use enterprise_llm_assistant.Prelude.{
  String, true, false, none, some, List, [], ◌∷◌, ◌≡◌, ◌≢◌, ◌≤◌, refl, ap, arith,
}
use enterprise_llm_assistant.Prelude.{string_eq, length}
use enterprise_llm_assistant.Prelude.Text.{truthy, strip, lower, starts_with, is_space}
use enterprise_llm_assistant.Prelude.Text.Words.Laws.{spaceless}
use enterprise_llm_assistant.Prelude.Dict
use mathlib.Core.Path.{subst}
use enterprise_llm_assistant.Prelude.Exec.{ok}
use enterprise_llm_assistant.Tools.Kubernetes
use enterprise_llm_assistant.Tools.Kubernetes.ReadOnly.{execute-state}
use enterprise_llm_assistant.Tools.Playbook
use enterprise_llm_assistant.Tools.Playbook.Gate.{Allowed, execute-Allowed}
use enterprise_llm_assistant.Core.Json.{null, text, boolean}
use enterprise_llm_assistant.Core.Json.Values.{is_truthy, get_json, str}
use enterprise_llm_assistant.Clients.KubernetesApi.{Answer}
use enterprise_llm_assistant.Clients.Kubernetes.{restart_deployment, kubernetes_client}
use enterprise_llm_assistant.Policies.Retry
use enterprise_llm_assistant.Policies.Retry.{execute_in_time}
use enterprise_llm_assistant.Policies.CircuitBreaker
use enterprise_llm_assistant.Services.LlmService.{generate, call_provider}
use enterprise_llm_assistant.Services.OutputParser.{parse_tool_response}
use enterprise_llm_assistant.Repositories.Approvals
use enterprise_llm_assistant.Repositories.Approvals.{PendingApproval, payload_of}
use enterprise_llm_assistant.Tools.Router.{tool_router, playbook_tool}
use enterprise_llm_assistant.Agents.{AgentResponse, first_pending, plan, str_at}
use enterprise_llm_assistant.Agents.Run.{run}
use enterprise_llm_assistant.Agents.Run.Safety.{run-cluster}
use enterprise_llm_assistant.Agents.Run.Steps.{run-steps}
use enterprise_llm_assistant.Agents.Run.Proposal.{proposal, run-proposes}
use enterprise_llm_assistant.Agents.Approve.{approve_and_execute}
use enterprise_llm_assistant.Agents.Approve.Effect.{ReadsBack, approve_and_execute-Allowed}
use enterprise_llm_assistant.Examples.Llm.{dict_cache, twice}
use enterprise_llm_assistant.Examples.Cluster.{
  logged, connected, three_texts, online, tools, scripted, agent, goal, agent_draws, playbook_plan,
  restart_item,
}

api_named : truthy "api" ≡ true
unfolding truthy
api_named = refl

api_spaceless : spaceless "api" ≡ true
unfolding spaceless is_space
api_spaceless = refl

parse-scale_command_example :
    parse_k8s_query three_texts (scale_command "api" 3) ≡ ok (scaling "api" 3)
parse-scale_command_example = parse-scale_command three_texts "api" 3 api_named api_spaceless

execute-state_example :
    (Kubernetes.execute logged three_texts online connected "list pods" ("api" ∷ [])).1 ≡ "api" ∷ []
execute-state_example = execute-state logged three_texts online connected "list pods" ("api" ∷ [])

no_dict : json_dict three_texts (strip "restart deploy api") ≡ none
unfolding json_dict strip is_space
no_dict = refl

restarted_api : length (Playbook.execute logged three_texts online connected "2026" "{}" []).1 ≡ 1
unfolding Playbook.execute Playbook.parse json_dict strip is_space string_eq is_truthy get_json
    Dict.lookup fields_of truthy lower str restart_deployment
restarted_api = refl

restart_changes : (Playbook.execute logged three_texts online connected "2026" "{}" []).1 ≢ []
restart_changes e = omega (arith, restarted_api, ap (λ (l : List String). length l) e)

execute-Allowed_example :
    (payload : Answer) × (Playbook.parse three_texts "{}" ≡ ok payload)
    × Allowed logged three_texts online connected "2026" payload []
        (Playbook.execute logged three_texts online connected "2026" "{}" []).1
execute-Allowed_example =
    execute-Allowed logged three_texts online connected "2026" "{}" [] restart_changes

abbrev any_order : List String → List String
any_order ids = ids

nothing_approved :
    first_pending scripted dict_cache logged three_texts online twice none
      (tool_router tools)
      any_order
      []
      (agent "playbook").approvals
    ≡ none
unfolding first_pending
nothing_approved = refl

run-cluster_example :
    (run scripted dict_cache logged three_texts online twice none
      (tool_router tools)
      any_order
      agent_draws
      goal
      (agent "playbook")).1.cluster
    ≡ []
run-cluster_example =
    run-cluster scripted dict_cache logged three_texts online twice none tools any_order agent_draws
      goal (agent "playbook") nothing_approved

playbook_planned :
    (plan scripted dict_cache logged three_texts online twice none
      (tool_router tools)
      any_order
      (0, 0)
      "restart it"
      []
      (agent "playbook")).0
    ≡ ok playbook_plan
unfolding plan generate call_provider CircuitBreaker.execute Retry.execute execute_in_time
    parse_tool_response parse_json string_eq fenced partition strip starts_with Dict.lookup dict_of
    fields_of
playbook_planned = refl

playbook_asked : str_at three_texts "action" "finish" playbook_plan ≡ "k8s_playbook"
unfolding Dict.lookup string_eq str
playbook_asked = refl

client_made : kubernetes_client logged three_texts online ≡ ok connected
unfolding kubernetes_client string_eq lower truthy
client_made = refl

abbrev restart_call : Answer
restart_call =
    ("action", text "restart")
    ∷ ("name", text "api")
    ∷ ("namespace", null)
    ∷ ("replicas", null)
    ∷ ("approved", boolean false)
    ∷ []

restart_parsed :
    Playbook.parse three_texts (str_at three_texts "input" "" playbook_plan) ≡ ok restart_call
unfolding Playbook.parse json_dict strip Dict.lookup string_eq str parse_k8s_query split lower
    get_json
restart_parsed = refl

run-proposes_example :
    (response : AgentResponse) × ((run scripted dict_cache logged three_texts online twice none
        (tool_router tools)
        any_order
        agent_draws
        goal
        (agent "playbook")).0
      ≡ ok response)
    × (response.pending_approvals
        ≡ proposal scripted dict_cache logged three_texts online twice none
            (tool_router tools)
            any_order
            agent_draws
            goal
            playbook_plan
            restart_call
          ∷ [])
    × (Dict.lookup "a2"
          (run scripted dict_cache logged three_texts online twice none
            (tool_router tools)
            any_order
            agent_draws
            goal
            (agent "playbook")).1.approvals.pending
        ≡ some (
            proposal scripted dict_cache logged three_texts online twice none
              (tool_router tools)
              any_order
              agent_draws
              goal
              playbook_plan
              restart_call))
    × ((run scripted dict_cache logged three_texts online twice none
          (tool_router tools)
          any_order
          agent_draws
          goal
          (agent "playbook")).1.approvals.approved
        ≡ [])
    × ((run scripted dict_cache logged three_texts online twice none
          (tool_router tools)
          any_order
          agent_draws
          goal
          (agent "playbook")).1.cluster
        ≡ [])
run-proposes_example =
    run-proposes scripted dict_cache logged three_texts online twice none (tool_router tools)
      any_order agent_draws goal 1 playbook_plan restart_call connected (agent "playbook") refl
      playbook_planned playbook_asked client_made restart_parsed nothing_approved

abbrev done : AgentResponse
done = record {
  answer = "done";
  steps = record { thought = ""; action = "finish"; observation = "done" } ∷ [];
  session_id = "s2";
  pending_approvals = [];
}

finished :
    (run scripted dict_cache logged three_texts online twice none
      (tool_router tools)
      any_order
      agent_draws
      goal
      (agent "finish")).0
    ≡ ok done
unfolding run plan generate call_provider CircuitBreaker.execute Retry.execute execute_in_time
    parse_tool_response parse_json string_eq fenced partition strip starts_with Dict.lookup dict_of
    fields_of str execute_step occurs_in truthy
finished = refl

run-steps_example : 1 ≤ 2
run-steps_example =
    run-steps scripted dict_cache logged three_texts online twice none (tool_router tools) any_order
      agent_draws goal done (agent "finish") finished

playbook_there : Dict.lookup "k8s_playbook" (tool_router tools) ≡ some (playbook_tool connected)
unfolding tool_router Dict.insert Dict.lookup string_eq
playbook_there = refl

payload_read : ReadsBack three_texts (payload_of restart_item)
unfolding Dict.merged Dict.insert string_eq starts_with strip
payload_read = record { braced = refl; loaded = refl }

items_read :
    (item : PendingApproval)
    → Dict.lookup "a1" (agent "").approvals.pending ≡ some item
    → ReadsBack three_texts (payload_of item)
unfolding Dict.lookup string_eq
items_read item e =
    let p : restart_item ≡ item = cc in
    subst (λ (i : PendingApproval). ReadsBack three_texts (payload_of i)) p payload_read

approval_restarts :
    length
      (approve_and_execute scripted dict_cache logged three_texts online twice none
        (tool_router tools)
        any_order
        "2026"
        "a1"
        (agent "")).1.cluster
    ≡ 1
unfolding approve_and_execute Approvals.approve Approvals.consume_approved_payload tool_router
    Playbook.execute Playbook.parse json_dict strip is_space string_eq is_truthy get_json
    Dict.lookup Dict.insert Dict.merged fields_of truthy lower str restart_deployment
approval_restarts = refl

approval_changes :
    (approve_and_execute scripted dict_cache logged three_texts online twice none
      (tool_router tools)
      any_order
      "2026"
      "a1"
      (agent "")).1.cluster
    ≢ []
approval_changes e = omega (arith, approval_restarts, ap (λ (l : List String). length l) e)

approve_and_execute-Allowed_example :
    (item : PendingApproval) × (Dict.lookup "a1" (agent "").approvals.pending ≡ some item)
    × Allowed logged three_texts online connected "2026"
        (payload_of item)
        []
        (approve_and_execute scripted dict_cache logged three_texts online twice none
          (tool_router tools)
          any_order
          "2026"
          "a1"
          (agent "")).1.cluster
approve_and_execute-Allowed_example =
    approve_and_execute-Allowed scripted dict_cache logged three_texts online twice none
      (tool_router tools) any_order connected "2026" "a1" (agent "") playbook_there items_read
      approval_changes
