-- ===== src/Services/OpsAdvisory.antt =====
-- app/services/ops_diagnosis_service.py, `_build_advisory`: the hypothesis about an alert, with a model or without.
use mathlib.Core.List
use Prim.Native.Char.{char}
use Prim.Native.String.{◌++◌ as ◌<>◌}
use enterprise_llm_assistant.Core.Exceptions.{attribute_error, value_error}
use enterprise_llm_assistant.Core.Json.{Json, float, array, object}
use enterprise_llm_assistant.Core.Json.Values.{
  dict_of, fields_of, items_of, list_of, get_json, is_truthy, str,
}
use enterprise_llm_assistant.Clients.KubernetesApi.{Answer}
use enterprise_llm_assistant.Repositories.Findings
use enterprise_llm_assistant.Repositories.Findings.{OpsFinding, FindingHypothesis, FindingStore}
use enterprise_llm_assistant.Services.Alerts.{AlertPayload}
use enterprise_llm_assistant.Services.LlmService
use enterprise_llm_assistant.Services.LlmService.{Llm, LlmResult, Provider, Cache}
use enterprise_llm_assistant.Services.OpsNotifier.{shown}
use enterprise_llm_assistant.Services.OutputParser.{parse_text}
use enterprise_llm_assistant.Prelude.{
  ℕ, String, true, ◌||◌, not, Option, none, some, List, [], ◌∷◌, ◌++◌,
}
use enterprise_llm_assistant.Prelude.{string_eq, if◌then◌else◌, take}
use enterprise_llm_assistant.Prelude.Text.{truthy, or_empty, strip, first, starts_with}
use enterprise_llm_assistant.Prelude.Text.Words.{partition, until_last}
use enterprise_llm_assistant.Prelude.Dict
use enterprise_llm_assistant.Prelude.Dict.{Dict}
use enterprise_llm_assistant.Prelude.Exec.{Result, ok, raised, Exec}
use enterprise_llm_assistant.Services.OpsSetup.{Setup, State, is_deployment}

abbrev general_suggestions : List String
general_suggestions =
    "Inspect recent deployments and ConfigMap/Secret changes"
    ∷ "Check readiness/liveness probe failures and events"
    ∷ "Review pod logs for the failing container" ∷ []

unfoldable pub suggestions_of : AlertPayload → List String
unfolding is_deployment
suggestions_of alert =
    if is_deployment alert
    then general_suggestions
      ++ ("Consider playbook: restart deploy " <> shown alert.resource <> " (requires approval)")
        ∷ ("Consider playbook: scale deploy " <> shown alert.resource <> " N (requires approval)")
        ∷ []
    else general_suggestions

-- `value or default`
abbrev or_text : Option String → String → String
or_text s default = if truthy (or_empty s) then or_empty s else default

-- The hypothesis without a model.
unfoldable pub plain_hypothesis : AlertPayload → FindingHypothesis
plain_hypothesis alert = record {
  statement =
      "Possible issue related to "
      <> alert.alertname
      <> " on "
      <> or_text alert.resource_kind "resource"
      <> "/"
      <> or_text alert.resource "unknown"
      <> ". "
      <> "Treat as advisory until verified against evidence.";
  confidence = "0.4";
  advisory = true;
}

abbrev failed_hypothesis : FindingHypothesis
failed_hypothesis = record {
  statement = "Unable to generate LLM hypothesis; review evidence manually.";
  confidence = "0.2";
  advisory = true;
}

-- From the first `{` to the last `}`.
unfoldable pub braced : String → Option String
braced s = elim (partition "{" s) [
  | none ↦ none
  | some (before, rest) ↦ elim (until_last (char b'}' tt) rest) [
    | none ↦ none
    | some inside ↦ some ("{" <> inside <> "}")
  ]
]

module _ (O : Setup) where
  prompt_of : AlertPayload → List Answer → String
  prompt_of alert evidence =
      "You are an SRE assistant. Given an alert and Kubernetes evidence, "
      <> "propose ONE concise root-cause HYPOTHESIS (not a proven fact) and 2-3 next checks.\n"
      <> "Respond as JSON: "
      <> "{\"hypothesis\":\"...\",\"confidence\":0.0-1.0,\"suggested_actions\":[\"...\"]}\n"
      <> "Alert: "
      <> alert.alertname
      <> " severity="
      <> alert.severity
      <> "\n"
      <> "Summary: "
      <> (if truthy alert.summary then alert.summary else alert.description)
      <> "\n"
      <> "Resource: "
      <> shown alert.resource_kind
      <> "/"
      <> shown alert.resource
      <> " ns="
      <> shown alert.namespace
      <> "\n"
      <> "Evidence:\n"
      <> first 6000 (
          O.json.dumps
            (array (items_of (List.map (λ (d : Answer). object (fields_of d)) evidence))))
      <> "\n"

  dict_if : Json → Option Answer
  dict_if (object fs) = some (dict_of fs)
  dict_if _ = none

  -- `json.loads` of a text that begins with a brace, which is a dict if it can be read.
  read_dict : String → Result Answer
  unfolding dict_if
  read_dict s = elim (O.json.loads s) [
    | none ↦ raised (value_error (O.json.decode_error s))
    | some j ↦ elim (dict_if j) [
      | none ↦ raised (attribute_error "the value that was read has no attribute 'get'")
      | some d ↦ ok d
    ]
  ]

  -- The dict in a text of the model.
  extracted : String → Result Answer
  unfolding read_dict braced
  extracted s = elim (braced s) [ none ↦ ok [] | some inside ↦ read_dict inside ]

  retried : String → Result Answer → Result Answer
  unfolding extracted
  retried s (raised e) = raised e
  retried s (ok []) = extracted s
  retried s (ok (entry ∷ entries)) = ok (entry ∷ entries)

  answer_dict : String → Result Answer
  unfolding retried read_dict
  answer_dict s = retried s (if starts_with "{" (strip s) then read_dict s else ok [])

  -- `[str(x) for x in extra][:5] or suggestions`, if it is a list.
  actions_from : Json → List String → List String
  actions_from (array js) suggestions =
      Findings.or_else (take 5 (List.map (str O.json) (list_of js))) suggestions
  actions_from j suggestions = suggestions

  -- What an answer of the model is made into.
  advice : List String → String → Answer → Result (FindingHypothesis × List String)
  unfolding actions_from
  advice suggestions s d =
      let statement =
        if is_truthy O.json (get_json "hypothesis" d)
        then str O.json (get_json "hypothesis" d)
        else s in
      let confidence : Json = elim (Dict.lookup "confidence" d) [
        | none ↦ float "0.5"
        | some j ↦ j
      ] in
      elim (O.floats.to_float confidence) [
        | raised e ↦ raised e
        | ok x ↦ ok (
          record {
            statement = first 500 statement;
            confidence = O.floats.at_least_zero (O.floats.at_most_one x);
            advisory = true;
          },
          if is_truthy O.json (get_json "suggested_actions" d)
              then actions_from (get_json "suggested_actions" d) suggestions
              else suggestions,
        )
      ]

  read_answer : List String → String → Result (FindingHypothesis × List String)
  unfolding advice answer_dict
  read_answer suggestions s = elim (answer_dict s) [
    | raised e ↦ raised e
    | ok d ↦ advice suggestions s d
  ]

  -- The body of the try block, by what the model answered.
  advised : List String → Result LlmResult → Result (FindingHypothesis × List String)
  unfolding read_answer
  advised suggestions (raised e) = raised e
  advised suggestions (ok result) = read_answer suggestions (parse_text result.content)

  -- Its exceptions are logged, and a hypothesis of little confidence stands in.
  or_failed :
      List String → Result (FindingHypothesis × List String) → List FindingHypothesis × List String
  or_failed suggestions (raised e) = (failed_hypothesis ∷ [], suggestions)
  or_failed suggestions (ok (hypothesis, actions)) = (hypothesis ∷ [], actions)

  -- `_build_advisory`
  unfoldable pub build_advisory :
      ℕ × ℕ → AlertPayload → List Answer → Exec (State O) (List FindingHypothesis × List String)
  unfolding advised or_failed prompt_of
  build_advisory (now, failed_at) alert evidence s =
      let suggestions = suggestions_of alert in
      if not O.has_llm || not O.settings.ops_use_llm_hypothesis
      then (ok (plain_hypothesis alert ∷ [], suggestions), s)
      else (let (r, l) =
            LlmService.generate O.provider O.cache O.settings O.policy O.timeout now failed_at
              (prompt_of alert evidence) s.llm in
          (ok (or_failed suggestions (advised suggestions r)), record s { llm = l }))
