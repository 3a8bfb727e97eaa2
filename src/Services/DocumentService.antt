-- ===== src/Services/DocumentService.antt =====
-- app/services/document_service.py, `DocumentService.delete` and `delete_session_documents`.
use Prim.Native.String.{◌++◌ as ◌<>◌}
use enterprise_llm_assistant.Core.Exceptions.{app}
use enterprise_llm_assistant.Ingestion.Service.{Vectors, Ingestion}
use enterprise_llm_assistant.Prelude.{ℕ, String, Bool, List}
use enterprise_llm_assistant.Prelude.{eqb, length}
use enterprise_llm_assistant.Prelude.Exec.{ok, Exec, pure, raise_if, modify, ◌>>=◌, ◌>>◌}
use enterprise_llm_assistant.Repositories.Documents

-- `DocumentDeleteResponse`, without its fixed message.
pub record Deleted : Type 0 where
  pub document_id : String
  pub collection : String
  pub chunks_deleted : ℕ

pub record SessionDeleted : Type 0 where
  pub session_id : String
  pub collection : String
  pub documents_deleted : ℕ
  pub chunks_deleted : ℕ
  pub document_ids : List String

module _ (V : Vectors) where
  on_vectors : {A : Type 0} → Exec V.State A → Exec (Ingestion V.State) A
  on_vectors m s = ((m s.vectors).0, record s { vectors = (m s.vectors).1 })

  unfoldable pub delete : String → String → Exec (Ingestion V.State) Deleted
  unfolding on_vectors
  delete document_id collection = do
    chunks_deleted ← on_vectors (V.delete_by_document_id collection document_id)
    raise_if (eqb chunks_deleted 0) (
        app ("Document '" <> document_id <> "' not found in collection '" <> collection <> "'") 404)
    modify (λ s. record s { documents = (Documents.delete_document document_id s.documents).1 })
    pure (record {
      document_id = document_id;
      collection = collection;
      chunks_deleted = chunks_deleted;
    })

  remove_listed : String → Bool → Exec (Ingestion V.State) (List String)
  remove_listed session_id ephemeral_only s =
      let (ids, documents) =
        Documents.delete_documents_by_session session_id ephemeral_only s.documents in
      (ok ids, record s { documents = documents })

  unfoldable pub delete_session_documents :
      String → String → Bool → Exec (Ingestion V.State) SessionDeleted
  unfolding on_vectors remove_listed
  delete_session_documents session_id collection ephemeral_only = do
    document_ids ← remove_listed session_id ephemeral_only
    chunks_deleted ← on_vectors (V.delete_by_session_id collection session_id)
    pure (record {
      session_id = session_id;
      collection = collection;
      documents_deleted = length document_ids;
      chunks_deleted = chunks_deleted;
      document_ids = document_ids;
    })
