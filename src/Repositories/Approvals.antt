-- ===== src/Repositories/Approvals.antt =====
-- app/repositories/finding_repository.py, `ApprovalStore`.
pub mod Gate
use enterprise_llm_assistant.Core.Json.{Json, text, boolean}
use enterprise_llm_assistant.Prelude.{String, Bool, true, false, Option, none, some, List, [], ◌∷◌}
use enterprise_llm_assistant.Prelude.{◌==◌, string_eq, if◌then◌else◌, contains, select}
use enterprise_llm_assistant.Prelude.Text.{truthy}
use enterprise_llm_assistant.Prelude.Dict
use enterprise_llm_assistant.Prelude.Dict.{Dict}

pub record PendingApproval : Type 0 where
  pub approval_id : String
  pub tool : String
  pub action : String
  pub args : Dict String Json
  pub reason : String
  pub session_id : Option String
  pub created_at : String

-- The set of approved ids is a list.
pub record ApprovalStore : Type 0 where
  pub pending : Dict String PendingApproval
  pub approved : List String

unfoldable pub put : PendingApproval → ApprovalStore → PendingApproval × ApprovalStore
put approval s =
    (approval, record s { pending = Dict.insert approval.approval_id approval s.pending })

unfoldable pub get : String → ApprovalStore → Option PendingApproval
get approval_id s = Dict.lookup approval_id s.pending

unfoldable pub approve : String → ApprovalStore → Option PendingApproval × ApprovalStore
approve approval_id s = elim (Dict.lookup approval_id s.pending) [
  | none ↦ (none, s)
  | some item ↦ (some item, record s { approved = approval_id ∷ s.approved })
]

unfoldable pub is_approved : String → ApprovalStore → Bool
is_approved approval_id s = contains s.approved approval_id

abbrev is_in : String → Option String → Bool
is_in session_id none = false
is_in session_id (some s) = s == session_id

unfoldable pub list_pending : Option String → ApprovalStore → List PendingApproval
list_pending none s = Dict.values s.pending
list_pending (some session_id) s =
    if truthy session_id
    then select (λ item. is_in session_id item.session_id) (Dict.values s.pending)
    else Dict.values s.pending

-- The arguments come last, and replace what has their keys.
abbrev pub payload_of : PendingApproval → Dict String Json
payload_of item =
    Dict.merged (("action", text item.action) ∷ ("approved", boolean true) ∷ []) item.args

unfoldable pub consume_approved_payload : String → ApprovalStore → Option (Dict String Json)
consume_approved_payload approval_id s =
    if contains s.approved approval_id
    then elim (Dict.lookup approval_id s.pending) [
      | none ↦ none
      | some item ↦ some (payload_of item)
    ]
    else none
