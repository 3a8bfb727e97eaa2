-- ===== src/Examples/Cluster.antt =====
-- A cluster that keeps a list of its patches, a `json` of three texts, and a model that always gives one answer.
use enterprise_llm_assistant.Core.Settings.{Settings, defaults}
use enterprise_llm_assistant.Core.Exceptions.{key_error, type_error}
use enterprise_llm_assistant.Core.Json.{boolean, text, object}
use enterprise_llm_assistant.Core.Json.Values.{JsonText, fields_of}
use enterprise_llm_assistant.Clients.KubernetesApi.{Cluster, Answer}
use enterprise_llm_assistant.Clients.Kubernetes.{KubernetesClient}
use enterprise_llm_assistant.Prelude.{String, true, false, none, some, List, [], ◌∷◌}
use enterprise_llm_assistant.Prelude.{string_eq, ◌==◌, if◌then◌else◌}
use enterprise_llm_assistant.Prelude.Int.{pos}
use enterprise_llm_assistant.Prelude.Exec.{ok, raised}
use enterprise_llm_assistant.Services.LlmService.{Provider, Llm}
use enterprise_llm_assistant.Tools.Router.{Tool, kubernetes_tool, playbook_tool, shell_tool}
use enterprise_llm_assistant.Repositories.Approvals.{PendingApproval}
use enterprise_llm_assistant.Agents.{Agent, AgentRequest, AgentDraws}
use enterprise_llm_assistant.Prelude.Dict.{Dict}
use enterprise_llm_assistant.Services.LlmService.{LlmResult}
use enterprise_llm_assistant.Examples.Llm

abbrev pub logged : Cluster
logged = record {
  State = List String;
  importable = true;
  load_incluster_config = ok tt;
  load_kube_config = λ path. ok tt;
  read_namespaced_pod = λ name ns s. raised (key_error name);
  list_namespaced_pod = λ ns selector s. ok [];
  read_namespaced_deployment = λ name ns s. raised (key_error name);
  list_namespaced_event = λ ns selector s. ok [];
  read_namespaced_pod_log = λ name ns lines s. ok "";
  patch_namespaced_deployment = λ name ns body s. (ok tt, name ∷ s);
  patch_namespaced_deployment_scale = λ name ns body s. (ok tt, name ∷ s);
}

abbrev pub connected : KubernetesClient
connected = record { mode = "incluster"; connected = true }

abbrev pub restart_payload : Answer
restart_payload =
    ("action", text "restart") ∷ ("approved", boolean true) ∷ ("name", text "api") ∷ []

abbrev pub finish_plan : Answer
finish_plan = ("action", text "finish") ∷ ("input", text "done") ∷ []

abbrev pub playbook_plan : Answer
playbook_plan = ("action", text "k8s_playbook") ∷ ("input", text "restart deploy api") ∷ []

abbrev pub three_texts : JsonText
three_texts = record {
  loads = λ s.
      if s == "{}"
      then some (object (fields_of restart_payload))
      else if s == "finish"
      then some (object (fields_of finish_plan))
      else if s == "playbook"
      then some (object (fields_of playbook_plan))
      else none;
  decode_error = λ s. s;
  dict_from = λ j. raised (type_error "");
  dumps = λ j. "{}";
  repr = λ j. "";
  float_truthy = λ f. true;
  float_int = λ f. ok (pos 0);
  float_is = λ f n. false;
  same_float = λ f g. f == g;
}

abbrev pub online : Settings
online = record defaults { k8s_auth_mode = "incluster"; cache_enabled = false }

abbrev pub tools : List Tool
tools = kubernetes_tool connected ∷ playbook_tool connected ∷ shell_tool ∷ []

-- The state is the content of every answer.
abbrev pub scripted : Provider
scripted = record {
  State = String;
  name = "openai";
  generate = λ prompt content. (ok (record Llm.hello { content = content }), content);
  took = λ prompt content. 0;
  cancelled = λ prompt content. content;
  stream = λ prompt content. ((content ∷ [], none), content);
}

abbrev pub restart_item : PendingApproval
restart_item = record {
  approval_id = "a1";
  tool = "k8s_playbook";
  action = "restart";
  args = ("name", text "api") ∷ [];
  reason = "because";
  session_id = some "s1";
  created_at = "2025";
}

abbrev pub agent : String → Agent (Llm String (Dict String LlmResult)) (List String)
agent content = record {
  llm = record {
    provider = content;
    cache = none;
    slept = [];
    breaker = Llm.idle.breaker;
    metrics = Llm.idle.metrics;
  };
  approvals = record { pending = ("a1", restart_item) ∷ []; approved = [] };
  cluster = [];
}

abbrev pub goal : AgentRequest
goal = record {
  goal = "restart it";
  session_id = none;
  max_iterations = 2;
  approved_action_ids = [];
}

abbrev pub agent_draws : AgentDraws
agent_draws = record {
  session_id = "s2";
  approval_id = "a2";
  now = "2026";
  restarted_at = λ turn. "2026";
  clock = λ turn. (turn, turn);
}
