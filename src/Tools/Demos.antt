-- ===== src/Tools/Demos.antt =====
-- app/tools: `ShellTool`, `SQLTool` and `WeatherTool`, which answer from fixed data.
use Prim.Native.String.{◌++◌ as ◌<>◌}
use enterprise_llm_assistant.Core.Json.{number, text, array, object}
use enterprise_llm_assistant.Core.Json.Values.{fields_of, items_of}
use enterprise_llm_assistant.Clients.KubernetesApi.{Answer}
use enterprise_llm_assistant.Prelude.{String, List, [], ◌∷◌}
use enterprise_llm_assistant.Prelude.{string_eq, if◌then◌else◌, contains}
use enterprise_llm_assistant.Prelude.Int.{pos}
use enterprise_llm_assistant.Prelude.Text.{strip}

abbrev pub allowed : List String
allowed = "pwd" ∷ "whoami" ∷ "date" ∷ []

unfoldable pub shell : String → Answer
shell query =
    let command = strip query in
    if contains allowed command
    then ("command", text command)
      ∷ ("stdout", text ("simulated output for " <> command))
      ∷ ("stderr", text "")
      ∷ ("exit_code", number (pos 0))
      ∷ []
    else ("command", text command)
      ∷ ("stdout", text "")
      ∷ ("stderr", text "Command not allowed")
      ∷ ("exit_code", number (pos 1))
      ∷ []

unfoldable pub sql : String → Answer
sql query =
    ("query", text query)
    ∷ (
      "rows",
      array (
          items_of
            (object (fields_of (("id", number (pos 1)) ∷ ("name", text "example") ∷ [])) ∷ [])),
    )
    ∷ ("row_count", number (pos 1))
    ∷ []

unfoldable pub weather : String → Answer
weather query =
    ("location", text query)
    ∷ ("temperature_c", number (pos 22))
    ∷ ("conditions", text "partly cloudy")
    ∷ []
