-- ===== src/Services/OutputParser.antt =====
-- app/parser/output_parser.py, `OutputParser`. `parse_model` is not modelled: it hands over to Pydantic.
use Prim.Native.String.{◌++◌ as ◌<>◌}
use enterprise_llm_assistant.Core.Exceptions.{app}
use enterprise_llm_assistant.Core.Json.{Json, object}
use enterprise_llm_assistant.Core.Json.Values.{JsonText, dict_of}
use enterprise_llm_assistant.Prelude.{String, Option, none, some}
use enterprise_llm_assistant.Prelude.{string_eq, if◌then◌else◌}
use enterprise_llm_assistant.Prelude.Text.{lower, strip, starts_with}
use enterprise_llm_assistant.Prelude.Text.Words.{partition, drop_chars}
use enterprise_llm_assistant.Prelude.Dict
use enterprise_llm_assistant.Prelude.Dict.{Dict}
use enterprise_llm_assistant.Prelude.Exec.{Result, ok, raised}

unfoldable pub parse_text : String → String
parse_text content = strip content

-- The mark `json` after a fence is left out.
unmarked : String → String
unmarked s = if starts_with "json" (lower s) then drop_chars "json" s else s

-- What stands between the first two fences, if there are two.
unfoldable pub fenced : String → Option String
unfolding unmarked
fenced content = elim (partition "```" content) [
  | none ↦ none
  | some (before, rest) ↦ elim (partition "```" (unmarked rest)) [
    | none ↦ none
    | some (inside, after) ↦ some inside
  ]
]

-- The text that is read as JSON.
cleaned : String → String
cleaned content = elim (fenced content) [ none ↦ content | some inside ↦ strip inside ]

-- A value that was read, which has to be a dict.
as_dict : JsonText → String → Option Json → Result (Dict String Json)
as_dict J content none =
    raised (app ("Failed to parse JSON output: " <> J.decode_error content) 422)
as_dict J content (some (object fs)) = ok (dict_of fs)
as_dict J content (some _) = raised (app "JSON output must be an object" 422)

unfoldable pub parse_json : JsonText → String → Result (Dict String Json)
unfolding cleaned as_dict
parse_json J content = as_dict J (cleaned (strip content)) (J.loads (cleaned (strip content)))

unfoldable pub parse_tool_response : JsonText → String → Result (Dict String Json)
parse_tool_response J content = elim (parse_json J content) [
  | raised e ↦ raised e
  | ok parsed ↦ elim (Dict.lookup "action" parsed) [
    | none ↦ raised (app "Tool response must include an action" 422)
    | some _ ↦ ok parsed
  ]
]
