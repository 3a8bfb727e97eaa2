-- ===== src/Tools/Router.antt =====
-- app/agents/tool_router.py, `ToolRouter`, and app/agents/executor.py, `Executor`, over the tools of app/tools.
pub mod Names
use Prim.Native.String.{◌++◌ as ◌<>◌}
use enterprise_llm_assistant.Core.Exceptions.{tool_execution}
use enterprise_llm_assistant.Core.Settings.{Settings}
use enterprise_llm_assistant.Core.Json.{object}
use enterprise_llm_assistant.Core.Json.Values.{JsonText, fields_of, str}
use enterprise_llm_assistant.Clients.KubernetesApi.{Cluster, Answer}
use enterprise_llm_assistant.Clients.Kubernetes.{KubernetesClient}
use enterprise_llm_assistant.Tools.Kubernetes
use enterprise_llm_assistant.Tools.Playbook
use enterprise_llm_assistant.Tools.Demos.{shell, sql, weather}
use enterprise_llm_assistant.Prelude.{String, Bool, none, some, List, [], ◌∷◌}
use enterprise_llm_assistant.Prelude.{string_eq, ◌==◌, if◌then◌else◌}
use enterprise_llm_assistant.Prelude.Text.{before}
use enterprise_llm_assistant.Prelude.Dict
use enterprise_llm_assistant.Prelude.Dict.{Dict}
use enterprise_llm_assistant.Prelude.Exec.{Result, ok, raised, Exec, pure, raise, ◌>>=◌}

-- The subclasses of `Tool`.
pub data Tool : Type 0 where
  weather_tool : Tool
  sql_tool : Tool
  kubernetes_tool : KubernetesClient → Tool
  playbook_tool : KubernetesClient → Tool
  shell_tool : Tool

abbrev pub name_of : Tool → String
name_of weather_tool = "weather"
name_of sql_tool = "sql"
name_of (kubernetes_tool c) = "kubernetes"
name_of (playbook_tool c) = "k8s_playbook"
name_of shell_tool = "shell"

-- `{tool.name: tool for tool in tools}`
registered_onto : Dict String Tool → List Tool → Dict String Tool
registered_onto tools [] = tools
registered_onto tools (t ∷ ts) = registered_onto (Dict.insert (name_of t) t tools) ts

-- `ToolRouter(tools)`
unfoldable pub tool_router : List Tool → Dict String Tool
unfolding registered_onto
tool_router tools = registered_onto [] tools

-- `sorted` of names
place : String → List String → List String
place x [] = x ∷ []
place x (y ∷ ys) = let rest = place x ys in if before y x then y ∷ rest else x ∷ y ∷ ys

sorted : List String → List String
unfolding place
sorted [] = []
sorted (x ∷ xs) = place x (sorted xs)

unfoldable pub list_tools : Dict String Tool → List String
unfolding sorted
list_tools tools = sorted (Dict.keys tools)

-- A step of the agent.
pub record AgentStep : Type 0 where
  pub thought : String
  pub action : String
  pub observation : String

module _ (K : Cluster) (J : JsonText) (cfg : Settings) (tools : Dict String Tool) where
  -- The method `execute` of each subclass.
  unfoldable pub execute_tool : String → Tool → String → Exec K.State Answer
  execute_tool now weather_tool query = pure (weather query)
  execute_tool now sql_tool query = pure (sql query)
  execute_tool now (kubernetes_tool c) query = Kubernetes.execute K J cfg c query
  execute_tool now (playbook_tool c) query = Playbook.execute K J cfg c now query
  execute_tool now shell_tool query = pure (shell query)

  -- `ToolRouter.execute`
  unfoldable pub execute : String → String → String → Exec K.State Answer
  unfolding execute_tool
  execute now action query = elim (Dict.lookup action tools) [
    | none ↦ raise (tool_execution ("Unknown tool: " <> action))
    | some tool ↦ execute_tool now tool query
  ]

  -- `Executor.execute`
  unfoldable pub execute_step : String → String → String → String → Exec K.State AgentStep
  execute_step now thought action query =
      if action == "finish"
      then pure (record { thought = thought; action = action; observation = query })
      else (do
        answer ← execute now action query
        pure (record {
          thought = thought;
          action = action;
          observation = str J (object (fields_of answer));
        }))
