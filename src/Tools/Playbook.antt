-- ===== src/Tools/Playbook.antt =====
-- app/tools/k8s_playbook_tool.py, `K8sPlaybookTool`.
pub mod Gate
use Prim.Native.String.{◌++◌ as ◌<>◌}
use enterprise_llm_assistant.Core.Exceptions.{app}
use enterprise_llm_assistant.Core.Settings.{Settings}
use enterprise_llm_assistant.Core.Json.{Json, null, boolean, text, object}
use enterprise_llm_assistant.Core.Json.Values.{
  JsonText, get_json, fields_of, is_truthy, str, int_of,
}
use enterprise_llm_assistant.Clients.KubernetesApi.{Cluster, Answer}
use enterprise_llm_assistant.Clients.Kubernetes.{
  KubernetesClient, restart_deployment, scale_deployment,
}
use enterprise_llm_assistant.Clients.Kubernetes.Query.{parse_k8s_query, json_dict}
use enterprise_llm_assistant.Prelude.{String, Bool, true, false, not, ◌||◌, none, some, [], ◌∷◌}
use enterprise_llm_assistant.Prelude.{string_eq, ◌==◌, if◌then◌else◌, contains, select}
use enterprise_llm_assistant.Prelude.Text.{lower, strip, starts_with}
use enterprise_llm_assistant.Prelude.Dict
use enterprise_llm_assistant.Prelude.Exec.{Result, ok, raised, Exec, pure, raise, ◌>>=◌}

abbrev pub pending_approval_marker : String
pending_approval_marker = "PENDING_APPROVAL"

-- `{k: v for k, v in payload.items() if k not in {"approved", "action"}}`
unfoldable pub args_of : Answer → Answer
args_of payload = select (λ (k, v). not (k == "approved" || k == "action")) payload

-- `str(d.get("action", "")).lower()`
unfoldable pub action_of : JsonText → Answer → String
action_of J d = elim (Dict.lookup "action" d) [ none ↦ "" | some j ↦ lower (str J j) ]

is_null : Json → Bool
is_null null = true
is_null _ = false

-- The action of a text that is no command: the word it begins with.
guessed : String → String → String
guessed action query =
    if contains ("restart" ∷ "scale" ∷ []) action
    then action
    else if starts_with "restart" (lower query)
    then "restart"
    else if starts_with "scale" (lower query)
    then "scale"
    else action

-- What was parsed, not approved.
proposed : JsonText → String → Result Answer → Result Answer
unfolding guessed action_of
proposed J query (raised e) = raised e
proposed J query (ok parsed) = ok (
    ("action", text (guessed (action_of J parsed) query))
    ∷ ("name", get_json "name" parsed)
    ∷ ("namespace", get_json "namespace" parsed)
    ∷ ("replicas", get_json "replicas" parsed)
    ∷ ("approved", boolean false)
    ∷ [])

-- `_parse`
unfoldable pub parse : JsonText → String → Result Answer
unfolding proposed
parse J query = elim (json_dict J (strip query)) [
  | some answer ↦ ok answer
  | none ↦ proposed J (strip query) (parse_k8s_query J (strip query))
]

module _ (K : Cluster) (J : JsonText) (cfg : Settings) (c : KubernetesClient) where
  -- The answer to a call that is not approved.
  unfoldable pub pending_answer : Answer → Answer
  unfolding args_of
  pending_answer payload =
      ("status", text pending_approval_marker)
      ∷ ("tool", text "k8s_playbook")
      ∷ ("proposed_action", get_json "action" payload)
      ∷ ("args", object (fields_of (args_of payload)))
      ∷ ("message", text "Mutating action requires explicit user approval")
      ∷ []

  scale_to : String → Json → Json → Exec K.State Answer
  unfolding is_null
  scale_to name replicas namespace s =
      if is_null replicas
      then (raised (app "scale requires replicas" 400), s)
      else elim (int_of J replicas) [
        | raised e ↦ (raised e, s)
        | ok n ↦ scale_deployment K J cfg c name n namespace s
      ]

  -- The playbook of an approved payload.
  unfoldable pub play : String → Answer → Exec K.State Answer
  unfolding scale_to action_of
  play now payload =
      let name = get_json "name" payload in
      let namespace = get_json "namespace" payload in
      let action = action_of J payload in
      if not (is_truthy J name)
      then raise (app "playbook requires deployment name" 400)
      else if action == "restart"
      then restart_deployment K J cfg c now (str J name) namespace
      else if action == "scale"
      then scale_to (str J name) (get_json "replicas" payload) namespace
      else raise (app ("Unknown playbook action '" <> action <> "'. Allowed: restart, scale") 400)

  execute_parsed : String → Result Answer → Exec K.State Answer
  unfolding play pending_answer
  execute_parsed now (raised e) = raise e
  execute_parsed now (ok payload) =
      if is_truthy J (get_json "approved" payload)
      then play now payload
      else pure (pending_answer payload)

  -- `execute`, with the reading of the clock that a restart writes.
  unfoldable pub execute : String → String → Exec K.State Answer
  unfolding execute_parsed
  execute now query = execute_parsed now (parse J query)
