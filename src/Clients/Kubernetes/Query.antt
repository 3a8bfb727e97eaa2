-- ===== src/Clients/Kubernetes/Query.antt =====
-- `parse_k8s_query` of app/clients/kubernetes_client.py.
pub mod RoundTrip
use Prim.Native.String.{◌++◌ as ◌<>◌}
use enterprise_llm_assistant.Core.Json.{Json, null, number, text, object}
use enterprise_llm_assistant.Core.Json.Values.{JsonText, dict_of, int_of}
use enterprise_llm_assistant.Clients.KubernetesApi.{Answer}
use enterprise_llm_assistant.Prelude.{String, Bool, true, false, Option, none, some, List, [], ◌∷◌}
use enterprise_llm_assistant.Prelude.{string_eq, if◌then◌else◌, contains}
use enterprise_llm_assistant.Prelude.Text.{lower, strip, starts_with}
use enterprise_llm_assistant.Prelude.Text.Words.{split, ends_with}
use enterprise_llm_assistant.Prelude.Dict
use enterprise_llm_assistant.Prelude.Dict.{Dict}
use enterprise_llm_assistant.Prelude.Exec.{Result, ok, raised}

abbrev kind_aliases : Dict String String
kind_aliases =
    ("pod", "pod")
    ∷ ("pods", "pods")
    ∷ ("deploy", "deployment")
    ∷ ("deployment", "deployment")
    ∷ ("deployments", "deployments")
    ∷ ("event", "events")
    ∷ ("events", "events")
    ∷ ("log", "logs")
    ∷ ("logs", "logs")
    ∷ []

abbrev actions : List String
actions = "get" ∷ "describe" ∷ "list" ∷ "events" ∷ "logs" ∷ "restart" ∷ "scale" ∷ []

-- `kind_aliases.get(kind, kind)`
aliased : String → String
aliased kind = elim (Dict.lookup kind kind_aliases) [ none ↦ kind | some k ↦ k ]

-- `rest[0] if rest else None`
abbrev head_or_null : List String → Json
head_or_null [] = null
head_or_null (w ∷ ws) = text w

-- The rest after a first word that is one of `kinds`.
after : List String → List String → List String
after kinds [] = []
after kinds (w ∷ ws) = if contains kinds (lower w) then ws else w ∷ ws

-- The name that events are asked for: the first word, unless it is a kind.
involved : List String → Json
involved [] = null
involved (w ∷ ws) = elim (Dict.lookup (lower w) kind_aliases) [
  | none ↦ text w
  | some _ ↦ head_or_null ws
]

-- The pod that logs are asked for. The word `pod` alone is a name.
log_name : List String → Json
log_name [] = null
log_name (w ∷ []) = text w
log_name (w ∷ v ∷ ws) = if contains ("pod" ∷ "pods" ∷ []) (lower w) then text v else text w

-- The kind in the plural.
listed_kind : String → String
unfolding ends_with
listed_kind kind = if ends_with "s" kind then kind else kind <> "s"

-- The name and the number of replicas.
scaled : JsonText → List String → Result Answer
scaled J [] = ok (
    ("action", text "scale")
    ∷ ("kind", text "deployment")
    ∷ ("name", null)
    ∷ ("replicas", null)
    ∷ [])
scaled J (name ∷ []) = ok (
    ("action", text "scale")
    ∷ ("kind", text "deployment")
    ∷ ("name", text name)
    ∷ ("replicas", null)
    ∷ [])
scaled J (name ∷ n ∷ ws) = elim (int_of J (text n)) [
  | raised e ↦ raised e
  | ok replicas ↦ ok (
      ("action", text "scale")
      ∷ ("kind", text "deployment")
      ∷ ("name", text name)
      ∷ ("replicas", number replicas)
      ∷ [])
]

-- `get` and `describe`
described : String → List String → Answer
unfolding aliased
described action [] =
    ("action", text action)
    ∷ ("kind", text (aliased "pods"))
    ∷ ("name", null)
    ∷ ("namespace", null)
    ∷ []
described action (w ∷ ws) =
    let (kind, name) : String × Json = elim (Dict.lookup (lower w) kind_aliases) [
      | some kind ↦ (kind, head_or_null ws)
      | none ↦ ("pod", text w)
    ] in
    ("action", text action) ∷ ("kind", text kind) ∷ ("name", name) ∷ ("namespace", null) ∷ []

first_kind : List String → String
unfolding aliased
first_kind [] = aliased "pods"
first_kind (w ∷ ws) = aliased (lower w)

-- The words after the action.
parse_action : JsonText → String → List String → Result Answer
unfolding involved log_name listed_kind first_kind scaled described after
parse_action J action rest =
    if contains ("events" ∷ []) action
    then ok (("action", text "events") ∷ ("kind", text "events") ∷ ("name", involved rest) ∷ [])
    else if contains ("logs" ∷ []) action
    then ok (("action", text "logs") ∷ ("kind", text "logs") ∷ ("name", log_name rest) ∷ [])
    else if contains ("list" ∷ []) action
    then ok (("action", text "list") ∷ ("kind", text (listed_kind (first_kind rest))) ∷ [])
    else if contains ("scale" ∷ []) action
    then scaled J (after ("deploy" ∷ "deployment" ∷ []) rest)
    else if contains ("restart" ∷ []) action
    then ok (
        ("action", text "restart")
        ∷ ("kind", text "deployment")
        ∷ ("name", head_or_null (after ("deploy" ∷ "deployment" ∷ []) rest))
        ∷ [])
    else ok (described action rest)

parse_words : JsonText → String → List String → Result Answer
unfolding parse_action
parse_words J whole [] = ok (("action", text "list") ∷ ("kind", text "pods") ∷ [])
parse_words J whole (w ∷ ws) =
    if contains actions (lower w)
    then parse_action J (lower w) ws
    else ok (("action", text "get") ∷ ("kind", text "pod") ∷ ("name", text whole) ∷ [])

-- The dict that a text is as JSON, if it begins with a brace.
unfoldable pub json_dict : JsonText → String → Option Answer
unfolding dict_of starts_with
json_dict J query =
    if starts_with "{" query
    then elim (J.loads query) [ some (object fs) ↦ some (dict_of fs) | _ ↦ none ]
    else none

unfoldable pub parse_k8s_query : JsonText → String → Result Answer
unfolding json_dict parse_words
parse_k8s_query J query = elim (json_dict J (strip query)) [
  | some answer ↦ ok answer
  | none ↦ parse_words J (strip query) (split (strip query))
]
