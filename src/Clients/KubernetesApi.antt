-- ===== src/Clients/KubernetesApi.antt =====
-- The package `kubernetes`, which is a parameter, as app/clients/kubernetes_client.py uses it, and the dicts that
-- `KubernetesClient` makes of its objects.
use enterprise_llm_assistant.Core.Json.{Json, boolean, number, text, object}
use enterprise_llm_assistant.Core.Json.Values.{fields_of, text_or_null, number_or_null}
use enterprise_llm_assistant.Prelude.{ℕ, ◌+◌, String, Bool, Option, none, some, List, [], ◌∷◌}
use enterprise_llm_assistant.Prelude.{if◌then◌else◌, ltb}
use enterprise_llm_assistant.Prelude.Int.{pos}
use enterprise_llm_assistant.Prelude.Dict.{Dict}
use enterprise_llm_assistant.Prelude.Exec.{Result, Exec}

pub record ContainerStatus : Type 0 where
  pub name : String
  pub ready : Bool
  pub restart_count : Option ℕ
  pub state : String

pub record Pod : Type 0 where
  pub name : String
  pub namespace : String
  pub phase : Option String
  pub node_name : Option String
  pub labels : Dict String String
  pub container_statuses : List ContainerStatus

pub record Condition : Type 0 where
  pub type_name : String
  pub status : String
  pub reason : Option String
  pub message : Option String

pub record Deployment : Type 0 where
  pub name : String
  pub namespace : String
  pub replicas : Option ℕ
  pub ready_replicas : Option ℕ
  pub available_replicas : Option ℕ
  pub conditions : List Condition

-- A time, with its `str`.
pub record Timestamp : Type 0 where
  pub at : ℕ
  pub shown : String

pub record Event : Type 0 where
  pub type_name : Option String
  pub reason : Option String
  pub message : Option String
  pub count : Option ℕ
  pub involved_object : Option String
  pub last_timestamp : Option Timestamp
  pub event_time : Option Timestamp
  pub creation_timestamp : Timestamp

-- The package `kubernetes`. Reading asks the cluster; the two patches may change it.
pub record Cluster : Type 1 where
  pub State : Type 0
  pub importable : Bool
  pub load_incluster_config : Result (Unit {0})
  pub load_kube_config : Option String → Result (Unit {0})
  pub read_namespaced_pod : String → Json → State → Result Pod
  pub list_namespaced_pod : Json → Option String → State → Result (List Pod)
  pub read_namespaced_deployment : String → Json → State → Result Deployment
  pub list_namespaced_event : Json → Option String → State → Result (List Event)
  pub read_namespaced_pod_log : String → Json → ℕ → State → Result String
  pub patch_namespaced_deployment : String → Json → Json → Exec State Unit
  pub patch_namespaced_deployment_scale : String → Json → Json → Exec State Unit

abbrev pub Answer : Type 0
Answer = Dict String Json

-- `{key: value}`
abbrev pub under : String → Json → Json
under key j = object (fields_of ((key, j) ∷ []))

-- The value of a dict of strings.
unfoldable pub string_fields : Dict String String → Dict String Json
string_fields [] = []
string_fields ((k, v) ∷ d) = (k, text v) ∷ string_fields d

unfoldable pub container_fields : List ContainerStatus → List Json
container_fields [] = []
container_fields (c ∷ cs) =
    object (
      fields_of (
        ("name", text c.name)
        ∷ ("ready", boolean c.ready)
        ∷ ("restart_count", number_or_null c.restart_count)
        ∷ ("state", text c.state)
        ∷ []))
    ∷ container_fields cs

-- `c.restart_count or 0`, summed up.
unfoldable pub restarts : List ContainerStatus → ℕ
restarts [] = 0
restarts (c ∷ cs) = elim c.restart_count [ none ↦ 0 | some n ↦ n ] + restarts cs

unfoldable pub pod_items : List Pod → List Json
unfolding restarts
pod_items [] = []
pod_items (p ∷ ps) =
    object (
      fields_of (
        ("name", text p.name)
        ∷ ("phase", text_or_null p.phase)
        ∷ ("restarts", number (pos (restarts p.container_statuses)))
        ∷ []))
    ∷ pod_items ps

unfoldable pub condition_items : List Condition → List Json
condition_items [] = []
condition_items (c ∷ cs) =
    object (
      fields_of (
        ("type", text c.type_name)
        ∷ ("status", text c.status)
        ∷ ("reason", text_or_null c.reason)
        ∷ ("message", text_or_null c.message)
        ∷ []))
    ∷ condition_items cs

-- The key of the sort: the first time that is there.
when : Event → ℕ
when e = elim e.last_timestamp [
  | some t ↦ t.at
  | none ↦ elim e.event_time [ some t ↦ t.at | none ↦ e.creation_timestamp.at ]
]

unfoldable pub shown_time : Event → String
shown_time e = elim e.last_timestamp [
  | some t ↦ t.shown
  | none ↦ elim e.event_time [ some t ↦ t.shown | none ↦ "" ]
]

-- In the order of `sorted(…, reverse=True)`: the latest first, and equal times as they were.
place : Event → List Event → List Event
unfolding when
place e [] = e ∷ []
place e (f ∷ fs) = let rest = place e fs in if ltb (when e) (when f) then f ∷ rest else e ∷ f ∷ fs

unfoldable pub latest_events : List Event → List Event
unfolding place
latest_events [] = []
latest_events (e ∷ es) = place e (latest_events es)

unfoldable pub event_items : List Event → List Json
unfolding shown_time
event_items [] = []
event_items (e ∷ es) =
    object (
      fields_of (
        ("type", text_or_null e.type_name)
        ∷ ("reason", text_or_null e.reason)
        ∷ ("message", text_or_null e.message)
        ∷ ("count", number_or_null e.count)
        ∷ ("involved_object", text_or_null e.involved_object)
        ∷ ("last_timestamp", text (shown_time e))
        ∷ []))
    ∷ event_items es
