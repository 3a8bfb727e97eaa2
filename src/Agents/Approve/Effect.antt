-- ===== src/Agents/Approve/Effect.antt =====
-- What `AgentService.approve_and_execute` makes of the cluster.
use enterprise_llm_assistant.Core.Settings.{Settings}
use enterprise_llm_assistant.Core.Json.{object}
use enterprise_llm_assistant.Core.Json.Values.{JsonText, fields_of, dict_of-fields_of}
use enterprise_llm_assistant.Clients.KubernetesApi.{Cluster, Answer}
use enterprise_llm_assistant.Clients.Kubernetes.{KubernetesClient}
use enterprise_llm_assistant.Clients.Kubernetes.Query.{json_dict}
use enterprise_llm_assistant.Policies.Retry.{RetryPolicy}
use enterprise_llm_assistant.Repositories.Approvals
use enterprise_llm_assistant.Repositories.Approvals.{PendingApproval, ApprovalStore, payload_of}
use enterprise_llm_assistant.Services.LlmService.{Provider, Cache}
use enterprise_llm_assistant.Tools.Playbook
use enterprise_llm_assistant.Tools.Playbook.Gate.{Allowed, execute-Allowed}
use enterprise_llm_assistant.Tools.Router.{Tool, playbook_tool}
use enterprise_llm_assistant.Agents.{State, Approved}
use enterprise_llm_assistant.Agents.Approve.{approve_and_execute}
use enterprise_llm_assistant.Prelude.{
  ℕ, String, true, Option, none, some, List, ◌≡◌, ◌≢◌, ap, sym, ◌∙◌, arith, inl, inr,
}
use enterprise_llm_assistant.Prelude.{string_eq, Option-cases, ==_refl}
use enterprise_llm_assistant.Prelude.Text.{strip, starts_with}
use enterprise_llm_assistant.Prelude.Dict
use enterprise_llm_assistant.Prelude.Dict.{Dict}
use enterprise_llm_assistant.Prelude.Exec.{Result, ok}
use mathlib.Core.Path.{subst}

-- What `json.dumps` writes of a dict begins with a brace, and `json.loads` reads the dict back.
pub record ReadsBack (J : JsonText) (payload : Answer) : Type 0 where
  pub braced : starts_with "{" (strip (J.dumps (object (fields_of payload)))) ≡ true
  pub loaded :
      J.loads (strip (J.dumps (object (fields_of payload)))) ≡ some (object (fields_of payload))

parse-dumps :
    (J : JsonText) (payload : Answer)
    → ReadsBack J payload
    → Playbook.parse J (J.dumps (object (fields_of payload))) ≡ ok payload
unfolding Playbook.parse json_dict
parse-dumps J payload law = ground (arith, law.braced, law.loaded, dict_of-fields_of payload)

module _ (P : Provider) (C : Cache) (K : Cluster) (J : JsonText) (cfg : Settings)
    (policy : RetryPolicy) (timeout : Option ℕ) (tools : Dict String Tool)
    (set_order : List String → List String) where
  abbrev Service : Type 0
  Service = State P C K J cfg policy timeout tools set_order

  -- Approving an id with no pending item changes nothing.
  pub approve-unknown :
      (now approval_id : String) (s : Service)
      → Dict.lookup approval_id s.approvals.pending ≡ none
      → approve_and_execute P C K J cfg policy timeout tools set_order now approval_id s
        ≡ (ok (record { status = "not_found"; approval_id = approval_id; result = none }), s)
  unfolding approve_and_execute Approvals.approve
  approve-unknown now approval_id s unknown = ground arith

  approve-executes :
      (c : KubernetesClient) (now approval_id : String) (item : PendingApproval) (s : Service)
      → Dict.lookup "k8s_playbook" tools ≡ some (playbook_tool c)
      → Dict.lookup approval_id s.approvals.pending ≡ some item
      → (approve_and_execute P C K J cfg policy timeout tools set_order now approval_id s).1.cluster
        ≡ (Playbook.execute K J cfg c now
            (J.dumps (object (fields_of (payload_of item))))
            s.cluster).1
  unfolding approve_and_execute Approvals.approve Approvals.consume_approved_payload
  approve-executes c now approval_id item s there known = ground (arith, ==_refl approval_id)

  -- If a call of `approve_and_execute` changes the cluster, a playbook was proposed under the id, and what
  -- is done is what the proposal says and the playbook allows. What `json.dumps` writes of the proposal is
  -- read back by `json.loads`.
  pub approve_and_execute-Allowed :
      (c : KubernetesClient) (now approval_id : String) (s : Service)
      → Dict.lookup "k8s_playbook" tools ≡ some (playbook_tool c)
      → ((item : PendingApproval)
          → Dict.lookup approval_id s.approvals.pending ≡ some item
          → ReadsBack J (payload_of item))
      → (approve_and_execute P C K J cfg policy timeout tools set_order now approval_id s).1.cluster
        ≢ s.cluster
      → (item : PendingApproval) × (Dict.lookup approval_id s.approvals.pending ≡ some item)
        × Allowed K J cfg c now
            (payload_of item)
            s.cluster
            (approve_and_execute P C K J cfg policy timeout tools set_order now approval_id
              s).1.cluster
  approve_and_execute-Allowed c now approval_id s there law changed =
      elim (Option-cases (Dict.lookup approval_id s.approvals.pending)) [
        | inl e ↦ absurd (
            changed (
              ap (λ (r : Result Approved × Service). r.1.cluster)
                (approve-unknown now approval_id s e)))
        | inr (item, e) ↦
            let same = approve-executes c now approval_id item s there e in
            let (payload, parsed, allowed) =
              execute-Allowed K J cfg c now (J.dumps (object (fields_of (payload_of item))))
                s.cluster (λ q. changed (same ∙ q)) in
            let p : payload ≡ payload_of item =
              cc (parsed, parse-dumps J (payload_of item) (law item e)) in
            let executed =
              (Playbook.execute K J cfg c now (J.dumps (object (fields_of (payload_of item))))
                s.cluster).1 in
            (
              item,
              e,
              subst (λ (t : K.State). Allowed K J cfg c now (payload_of item) s.cluster t)
                  (sym same)
                  (subst (λ (x : Answer). Allowed K J cfg c now x s.cluster executed) p allowed),
            )
      ]
