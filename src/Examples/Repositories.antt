-- ===== src/Examples/Repositories.antt =====
-- Small repositories of documents, findings and approvals.
use enterprise_llm_assistant.Core.Json.{text, boolean}
use enterprise_llm_assistant.Core.Settings.{defaults}
use enterprise_llm_assistant.Prelude.{ℕ, ◌+◌, true, false, none, some, [], ◌∷◌, ◌≡◌, refl}
use enterprise_llm_assistant.Prelude.{string_eq, if◌then◌else◌, length}
use enterprise_llm_assistant.Prelude.Text.{truthy}
use enterprise_llm_assistant.Prelude.Dict
use enterprise_llm_assistant.Prelude.Exec.{ok}
use enterprise_llm_assistant.Repositories.Documents.{
  Documents, get_document, delete_documents_by_session, is_listed, save_document,
}
use enterprise_llm_assistant.Repositories.Documents.Deletion
use enterprise_llm_assistant.Repositories.Documents.Deletion.{delete_documents_by_session-exact}
use enterprise_llm_assistant.Repositories.Findings.{OpsFinding, FindingStore}
use enterprise_llm_assistant.Repositories.Approvals.{
  PendingApproval, put, approve, consume_approved_payload, payload_of,
}
use enterprise_llm_assistant.Repositories.Approvals.Gate
use enterprise_llm_assistant.Repositories.Approvals.Gate.{payload_needs_approval}
use enterprise_llm_assistant.Ingestion.Service.{
  Vectors, Ingestion, chunks_of, characters, index_text,
}
use enterprise_llm_assistant.Ingestion.Splitter.{split}
use enterprise_llm_assistant.Ingestion.Service.Indexing.{IsIndexed, index_text-documents}

abbrev one_document : Documents
one_document =
    save_document "d1" "a.txt" "documents" 1
      (("session_id", text "s1") ∷ ("ephemeral", boolean true) ∷ []) []

one_document-Reached : Deletion.Reached one_document
one_document-Reached = Deletion.next Deletion.started (
    Deletion.saved "d1" "a.txt" "documents" 1
      (("session_id", text "s1") ∷ ("ephemeral", boolean true) ∷ []) [])

delete_documents_by_session-exact_example :
    get_document "d1" (delete_documents_by_session "s1" true one_document).1
    ≡ elim (get_document "d1" one_document) [
      | none ↦ none
      | some d ↦ if is_listed "s1" true d then none else some d
    ]
delete_documents_by_session-exact_example =
    delete_documents_by_session-exact "s1" true "d1" one_document-Reached

-- The document is gone.
session_document_gone :
    get_document "d1" (delete_documents_by_session "s1" true one_document).1 ≡ none
unfolding get_document delete_documents_by_session save_document Dict.insert Dict.lookup Dict.values
    Dict.erase string_eq is_listed
session_document_gone = refl

abbrev crash : OpsFinding
crash = record {
  id = "f1";
  fingerprint = "crash|default";
  alertname = "PodCrash";
  severity = "warning";
  namespace = none;
  resource = none;
  resource_kind = none;
  evidence = [];
  hypotheses = [];
  suggested_actions = "look" ∷ [];
  playbook_links = [];
  status = "open";
  created_at = "2024-01-01";
  notified = false;
  metadata = [];
}

abbrev crash_again : OpsFinding
crash_again = record crash { id = "f2"; severity = "critical"; suggested_actions = [] }

abbrev no_findings : FindingStore
no_findings = record { by_id = []; by_fingerprint = [] }

crash_named : truthy "f1" ≡ true
unfolding truthy
crash_named = refl

abbrev restart : PendingApproval
restart = record {
  approval_id = "a1";
  tool = "k8s_playbook";
  action = "restart";
  args = ("name", text "web") ∷ [];
  reason = "";
  session_id = none;
  created_at = "";
}

payload_needs_approval_example :
    (consume_approved_payload "a1" (record { pending = []; approved = [] }) ≡ none)
    × (consume_approved_payload "a1" (put restart (record { pending = []; approved = [] })).1
        ≡ none)
    × (consume_approved_payload "a1"
          (approve "a1" (put restart (record { pending = []; approved = [] })).1).1
        ≡ some (payload_of restart))
payload_needs_approval_example = payload_needs_approval restart Gate.started

-- A database that counts its calls.
abbrev counting_vectors : Vectors
counting_vectors = record {
  State = ℕ;
  Vector = ℕ;
  embed = λ texts n. (ok (length texts ∷ []), n + 1);
  ensure_collection = λ collection size n. (ok tt, n + 1);
  upsert = λ collection vectors points n. (ok tt, n + 1);
  delete_by_document_id = λ collection document_id n. (ok 1, n + 1);
  delete_by_session_id = λ collection session_id n. (ok 1, n + 1);
}

abbrev empty_index : Ingestion ℕ
empty_index = record { vectors = 0; documents = [] }

index_text-documents_example :
    IsIndexed counting_vectors defaults none none 1 "d1" "a.txt" "documents" [] [] (
      index_text counting_vectors defaults none none "d1" "some text" "a.txt" "documents" []
        empty_index)
unfolding chunks_of split characters
index_text-documents_example =
    index_text-documents counting_vectors defaults none none "d1" "some text" "a.txt" "documents" []
      empty_index
