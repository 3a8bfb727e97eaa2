-- ===== src/Tools/Router/Names.antt =====
-- `ToolRouter` reaches a tool by its own name alone, so no other name changes the cluster.
use enterprise_llm_assistant.Core.Settings.{Settings}
use enterprise_llm_assistant.Core.Json.Values.{JsonText}
use enterprise_llm_assistant.Clients.KubernetesApi.{Cluster}
use enterprise_llm_assistant.Tools.Kubernetes.ReadOnly.{execute-state}
use enterprise_llm_assistant.Tools.Router.{
  Tool, weather_tool, sql_tool, kubernetes_tool, playbook_tool, shell_tool, name_of,
  registered_onto, tool_router, execute_tool, execute, execute_step, AgentStep,
}
use enterprise_llm_assistant.Prelude.{
  String, some, List, [], ◌∷◌, ◌≡◌, ◌≢◌, refl, sym, ◌∙◌, arith, inl, inr,
}
use enterprise_llm_assistant.Prelude.{string_eq, Option-cases}
use enterprise_llm_assistant.Prelude.Exec.{ok}
use enterprise_llm_assistant.Prelude.Dict
use enterprise_llm_assistant.Prelude.Dict.{Dict}

-- Every tool is filed under its name.
abbrev pub Named : Dict String Tool → Type 0
Named tools = (key : String) (t : Tool) → Dict.lookup key tools ≡ some t → name_of t ≡ key

registered_onto-Named :
    (tools : Dict String Tool) (ts : List Tool) → Named tools → Named (registered_onto tools ts)
unfolding registered_onto
registered_onto-Named tools [] h = h
registered_onto-Named tools (t ∷ ts) h =
    registered_onto-Named (Dict.insert (name_of t) t tools) ts
      (λ key u p. ground (arith, Dict.lookup-insert key (name_of t) t tools, h key u))

pub tool_router-Named : (ts : List Tool) → Named (tool_router ts)
unfolding tool_router
tool_router-Named ts =
    registered_onto-Named [] ts (λ key t p. cc (Dict.lookup-empty {V = Tool} key, p))

module _ (K : Cluster) (J : JsonText) (cfg : Settings) (tools : Dict String Tool)
    (named : Named tools) where
  execute_tool-state :
      (now : String) (t : Tool) (query : String) (s : K.State)
      → name_of t ≢ "k8s_playbook"
      → (execute_tool K J cfg tools now t query s).1 ≡ s
  unfolding execute_tool
  execute_tool-state now weather_tool query s other = refl
  execute_tool-state now sql_tool query s other = refl
  execute_tool-state now (kubernetes_tool c) query s other = execute-state K J cfg c query s
  execute_tool-state now (playbook_tool c) query s other = absurd (other refl)
  execute_tool-state now shell_tool query s other = refl

  execute_other :
      (now action query : String) (s : K.State)
      → action ≢ "k8s_playbook"
      → (execute K J cfg tools now action query s).1 ≡ s
  unfolding execute
  execute_other now action query s other = elim (Option-cases (Dict.lookup action tools)) [
    | inl e ↦ rw (e, execute) refl
    | inr (t, e) ↦
        rw (e, execute) (execute_tool-state now t query s (λ p. other (sym (named action t e) ∙ p)))
  ]

  -- A step with another action than the playbook leaves the cluster as it was.
  pub execute_step-state :
      (now thought action query : String) (s : K.State)
      → action ≢ "k8s_playbook"
      → (execute_step K J cfg tools now thought action query s).1 ≡ s
  unfolding execute_step
  execute_step-state now thought action query s other =
      ground (arith, execute_other now action query s other)

  -- The step of a call has the action of the call.
  pub execute_step-action :
      (now thought action query : String) (s : K.State) (step : AgentStep)
      → (execute_step K J cfg tools now thought action query s).0 ≡ ok step
      → step.action ≡ action
  unfolding execute_step
  execute_step-action now thought action query s step made = ground arith
