-- ===== src/Repositories/Approvals/Gate.antt =====
-- `ApprovalStore`: a payload comes out only after an approval.
use enterprise_llm_assistant.Prelude.{
  String, false, none, some, [], ◌≡◌, ◌≢◌, arith, refl, inl, inr,
}
use enterprise_llm_assistant.Prelude.{string_eq, contains, Option-cases, ==_refl}
use enterprise_llm_assistant.Prelude.Dict
use enterprise_llm_assistant.Prelude.Dict.{Dict, dict_laws}
use enterprise_llm_assistant.Repositories.Approvals.{
  PendingApproval, ApprovalStore, put, approve, consume_approved_payload, payload_of,
}

-- The stores after calls, none of which approves the id.
pub data Unapproved (approval_id : String) : ApprovalStore → Type 0 where
  started : Unapproved approval_id (record { pending = []; approved = [] })
  proposed :
      (approval : PendingApproval) {s : ApprovalStore}
      → Unapproved approval_id s
      → Unapproved approval_id (put approval s).1
  other_approved :
      (other : String) {s : ApprovalStore}
      → other ≢ approval_id
      → Unapproved approval_id s
      → Unapproved approval_id (approve other s).1

not_approved :
    {approval_id : String} {s : ApprovalStore}
    → Unapproved approval_id s
    → contains s.approved approval_id ≡ false
unfolding put approve
not_approved started = refl
not_approved (proposed approval u) = not_approved u
not_approved {approval_id} (other_approved other {s = s} apart u) =
    elim (Option-cases (Dict.lookup other s.pending)) [
      | inl e ↦ ground (arith, not_approved u)
      | inr (item, e) ↦ ground (arith, not_approved u)
    ]

-- In a store that is reached from the empty one by proposals and by approvals of other ids, an id has no payload, whatever was proposed under it; once it is proposed and then approved, its payload is the action and the mark of the approval, with the proposed arguments over them.
pub payload_needs_approval :
    (approval : PendingApproval) {s : ApprovalStore}
    → Unapproved approval.approval_id s
    → (consume_approved_payload approval.approval_id s ≡ none)
      × (consume_approved_payload approval.approval_id (put approval s).1 ≡ none)
      × (consume_approved_payload approval.approval_id
            (approve approval.approval_id (put approval s).1).1
          ≡ some (payload_of approval))
unfolding consume_approved_payload put approve
payload_needs_approval approval {s} u =
    let closed = not_approved u in
    let put_law = Dict.lookup-insert approval.approval_id approval.approval_id approval s.pending in
    (
      ground (arith, closed),
      ground (arith, closed),
      ground (arith, put_law, ==_refl approval.approval_id),
    )
