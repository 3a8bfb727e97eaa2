-- ===== src/Repositories/Findings.antt =====
-- app/repositories/finding_repository.py, `FindingStore`, with the findings of app/models/ops.py.
pub mod Dedupe
pub mod Heard
pub mod Filed
use enterprise_llm_assistant.Core.Json.{Json}
use enterprise_llm_assistant.Prelude.{
  ℕ, String, Bool, true, false, Option, none, some, List, [], ◌∷◌,
}
use enterprise_llm_assistant.Prelude.{string_eq, if◌then◌else◌, take}
use enterprise_llm_assistant.Prelude.Text.{truthy, before}
use enterprise_llm_assistant.Prelude.Dict
use enterprise_llm_assistant.Prelude.Dict.{Dict}

-- A confidence is a number as it is written.
pub record FindingHypothesis : Type 0 where
  pub statement : String
  pub confidence : String
  pub advisory : Bool

pub record OpsFinding : Type 0 where
  pub id : String
  pub fingerprint : String
  pub alertname : String
  pub severity : String
  pub namespace : Option String
  pub resource : Option String
  pub resource_kind : Option String
  pub evidence : List (Dict String Json)
  pub hypotheses : List FindingHypothesis
  pub suggested_actions : List String
  pub playbook_links : List String
  pub status : String
  pub created_at : String
  pub notified : Bool
  pub metadata : Dict String Json

pub record FindingStore : Type 0 where
  pub by_id : Dict String OpsFinding
  pub by_fingerprint : Dict String String

-- `new or old`
abbrev pub or_else {ℓ} : {A : Type ℓ} → List A → List A → List A
or_else [] old = old
or_else (x ∷ xs) old = x ∷ xs

-- The finding that is there, with what the new one brings.
abbrev pub updated : OpsFinding → OpsFinding → OpsFinding
updated existing finding = record existing {
  evidence = or_else finding.evidence existing.evidence;
  hypotheses = or_else finding.hypotheses existing.hypotheses;
  suggested_actions = or_else finding.suggested_actions existing.suggested_actions;
  severity = finding.severity;
  status = finding.status;
  metadata = Dict.merged existing.metadata finding.metadata;
}

-- The id and the finding that a fingerprint leads to.
unfoldable pub existing_of : String → FindingStore → Option (String × OpsFinding)
existing_of fingerprint s = elim (Dict.lookup fingerprint s.by_fingerprint) [
  | none ↦ none
  | some existing_id ↦
      if truthy existing_id
      then elim (Dict.lookup existing_id s.by_id) [
        | none ↦ none
        | some existing ↦ some (existing_id, existing)
      ]
      else none
]

unfoldable pub upsert : OpsFinding → FindingStore → OpsFinding × FindingStore
unfolding existing_of
upsert finding s = elim (existing_of finding.fingerprint s) [
  | some (existing_id, existing) ↦ (
    updated existing finding,
    record s { by_id = Dict.insert existing_id (updated existing finding) s.by_id },
  )
  | none ↦ (
    finding,
    record {
      by_id = Dict.insert finding.id finding s.by_id;
      by_fingerprint = Dict.insert finding.fingerprint finding.id s.by_fingerprint;
    },
  )
]

unfoldable pub get : String → FindingStore → Option OpsFinding
get finding_id s = Dict.lookup finding_id s.by_id

-- In the order of `sorted(…, reverse=True)`: the latest first, and equal times as they were.
place : OpsFinding → List OpsFinding → List OpsFinding
place f [] = f ∷ []
place f (g ∷ gs) =
    let rest = place f gs in if before f.created_at g.created_at then g ∷ rest else f ∷ g ∷ gs

latest_first : List OpsFinding → List OpsFinding
unfolding place
latest_first [] = []
latest_first (f ∷ fs) = place f (latest_first fs)

unfoldable pub list : ℕ → FindingStore → List OpsFinding
unfolding latest_first
list limit s = take limit (latest_first (Dict.values s.by_id))

unfoldable pub mark_notified : String → FindingStore → FindingStore
mark_notified finding_id s = elim (Dict.lookup finding_id s.by_id) [
  | none ↦ s
  | some finding ↦ record s {
    by_id = Dict.insert finding_id (record finding { notified = true }) s.by_id;
  }
]
