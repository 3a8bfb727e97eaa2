-- ===== src/Services/OpsNotifier.antt =====
-- app/services/ops_notifier.py, `OpsNotifier`. The log is not modelled.
use Prim.Native.String.{◌++◌ as ◌<>◌}
use enterprise_llm_assistant.Core.Json.{Json}
use enterprise_llm_assistant.Core.Settings.{Settings}
use enterprise_llm_assistant.Prelude.{String, Option, none, some, List, [], ◌∷◌}
use enterprise_llm_assistant.Prelude.{if◌then◌else◌, length, take}
use enterprise_llm_assistant.Prelude.Text.{truthy, strip, join, decimal}
use enterprise_llm_assistant.Prelude.Exec.{Result, ok, Exec}
use enterprise_llm_assistant.Repositories.Findings.{OpsFinding, FindingHypothesis}

-- The server behind the webhook: what a POST of a text to a URL does.
pub record Slack : Type 1 where
  pub State : Type 0
  pub post : String → String → Exec State Unit

-- Numbers with a fraction, each by its `repr`.
pub record Floats : Type 0 where
  -- `float(value)`
  pub to_float : Json → Result String
  -- `min(1.0, x)` and `max(0.0, x)`
  pub at_most_one : String → String
  pub at_least_zero : String → String
  -- The format `.2f`
  pub fixed : String → String

-- An optional text in an f-string.
abbrev pub shown : Option String → String
shown none = "None"
shown (some s) = s

unfoldable pub statement_of : List FindingHypothesis → String
statement_of [] = "No hypothesis"
statement_of (h ∷ hs) = h.statement

unfoldable pub confidence_of : List FindingHypothesis → String
confidence_of [] = "0.0"
confidence_of (h ∷ hs) = h.confidence

unfoldable pub format : Floats → OpsFinding → String
unfolding statement_of confidence_of
format F finding =
    let joined = join "; " (take 5 finding.suggested_actions) in
    "[Ops Finding] "
    <> finding.alertname
    <> " ("
    <> finding.severity
    <> ")\n"
    <> "id="
    <> finding.id
    <> " fingerprint="
    <> finding.fingerprint
    <> "\n"
    <> "resource="
    <> shown finding.resource_kind
    <> "/"
    <> shown finding.resource
    <> " ns="
    <> shown finding.namespace
    <> "\n"
    <> "hypothesis (advisory, conf="
    <> F.fixed (confidence_of finding.hypotheses)
    <> "): "
    <> statement_of finding.hypotheses
    <> "\n"
    <> "suggested: "
    <> (if truthy joined then joined else "None")
    <> "\n"
    <> "evidence_count="
    <> decimal (length finding.evidence)

module _ (S : Slack) (F : Floats) (cfg : Settings) where
  -- An exception of the POST is logged and dropped.
  unfoldable pub notify : OpsFinding → Exec S.State Unit
  unfolding format
  notify finding s =
      if truthy (strip cfg.ops_slack_webhook_url)
      then (ok tt, (S.post (strip cfg.ops_slack_webhook_url) (format F finding) s).1)
      else (ok tt, s)
