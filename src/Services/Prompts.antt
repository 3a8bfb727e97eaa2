-- ===== src/Services/Prompts.antt =====
-- app/prompt/prompt_builder.py, `build_chat_prompt` and `build_agent_prompt`.
use Prim.Native.String.{◌++◌ as ◌<>◌}
use enterprise_llm_assistant.Core.Settings.{Settings}
use enterprise_llm_assistant.Memory.{Message}
use enterprise_llm_assistant.Prelude.{ℕ, suc, String, Option, none, some, List, [], ◌∷◌, ◌++◌}
use enterprise_llm_assistant.Prelude.{if◌then◌else◌, take}
use enterprise_llm_assistant.Prelude.Text.{truthy, title, decimal, join}

abbrev pub default_system_prompt : String
default_system_prompt =
    "You are an enterprise AI assistant. Answer accurately using the provided context when available."

-- The lines of the conversation.
history_lines : List Message → List String
history_lines [] = []
history_lines (message ∷ messages) =
    (title message.role <> ": " <> message.content) ∷ history_lines messages

-- The texts of the chunks, numbered from `index + 1`.
source_texts : ℕ → List String → List String
source_texts index [] = []
source_texts index (content ∷ contents) =
    ("[Source " <> decimal (suc index) <> "]\n" <> content) ∷ source_texts (suc index) contents

history_sections : List Message → List String
unfolding history_lines
history_sections [] = []
history_sections (m ∷ ms) = "Conversation History:" ∷ join "\n" (history_lines (m ∷ ms)) ∷ []

context_sections : Settings → List String → List String
unfolding source_texts
context_sections cfg [] = []
context_sections cfg (c ∷ cs) =
    "Context:" ∷ join "\n\n" (source_texts 0 (take cfg.top_n (c ∷ cs))) ∷ []

system_of : Option String → String
system_of none = default_system_prompt
system_of (some text) = if truthy text then text else default_system_prompt

-- The context chunks by their contents.
unfoldable pub build_chat_prompt :
    Settings → String → List String → List Message → Option String → String
unfolding history_sections context_sections system_of
build_chat_prompt cfg question contents history system_prompt = join "\n\n" (
    system_of system_prompt
    ∷ (history_sections history
        ++ (context_sections cfg contents ++ (("Question:\n" <> question) ∷ "Answer:" ∷ []))))

dashed : List String → List String
dashed [] = []
dashed (x ∷ xs) = ("- " <> x) ∷ dashed xs

-- `"\n".join(…) or "- None"`
observed : List String → String
unfolding dashed
observed [] = "- None"
observed (x ∷ xs) = join "\n" (dashed (x ∷ xs))

unfoldable pub build_agent_prompt : String → List String → List String → String
unfolding observed
build_agent_prompt goal observations tools =
    "You are an enterprise agent planner.\nGoal: "
    <> goal
    <> "\nAvailable tools: "
    <> join ", " tools
    <> "\nNotes: kubernetes is read-only (get/list/events/logs). k8s_playbook is mutating (restart/scale) and requires human approval.\nObservations:\n"
    <> observed observations
    <> "\nRespond with JSON: {\"thought\": \"...\", \"action\": \"tool_name|finish\", \"input\": \"...\"}"
