-- ===== src/Repositories/Documents.antt =====
-- app/repositories/in_memory_document_repository.py
pub mod Deletion
use enterprise_llm_assistant.Core.Json.{Json, text, boolean}
use enterprise_llm_assistant.Prelude.{
  ℕ, String, Bool, true, false, not, ◌&&◌, ◌||◌, Option, none, some, List, [], ◌∷◌,
}
use enterprise_llm_assistant.Prelude.{◌==◌, string_eq, if◌then◌else◌, select}
use enterprise_llm_assistant.Prelude.Text.{truthy}
use enterprise_llm_assistant.Prelude.Dict
use enterprise_llm_assistant.Prelude.Dict.{Dict}

pub record Document : Type 0 where
  pub document_id : String
  pub filename : String
  pub collection : String
  pub chunk_count : ℕ
  pub metadata : Dict String Json

abbrev pub Documents : Type 0
Documents = Dict String Document

unfoldable pub save_document :
    String → String → String → ℕ → Dict String Json → Documents → Documents
save_document document_id filename collection chunk_count metadata documents =
    Dict.insert document_id
      (record {
        document_id = document_id;
        filename = filename;
        collection = collection;
        chunk_count = chunk_count;
        metadata = metadata;
      })
      documents

unfoldable pub get_document : String → Documents → Option Document
get_document document_id documents = Dict.lookup document_id documents

-- `if collection: …`
unfoldable pub in_collection : Option String → List Document → List Document
in_collection none documents = documents
in_collection (some collection) documents =
    if truthy collection
    then select (λ document. document.collection == collection) documents
    else documents

unfoldable pub list_documents : Option String → Documents → List Document
unfolding in_collection
list_documents collection documents = in_collection collection (Dict.values documents)

unfoldable pub delete_document : String → Documents → Bool × Documents
delete_document document_id documents = (
  elim (Dict.lookup document_id documents) [ none ↦ false | some _ ↦ true ],
  Dict.erase document_id documents,
)

-- `doc.get("metadata", {}).get("session_id") == session_id`
unfoldable pub is_of_session : String → Document → Bool
is_of_session session_id document = elim (Dict.lookup "session_id" document.metadata) [
  | some (text t) ↦ t == session_id
  | _ ↦ false
]

-- `doc.get("metadata", {}).get("ephemeral") is True`
unfoldable pub is_ephemeral : Document → Bool
is_ephemeral document = elim (Dict.lookup "ephemeral" document.metadata) [
  | some (boolean b) ↦ b
  | _ ↦ false
]

unfoldable pub is_listed : String → Bool → Document → Bool
unfolding is_of_session is_ephemeral
is_listed session_id ephemeral_only document =
    is_of_session session_id document && (not ephemeral_only || is_ephemeral document)

unfoldable pub list_documents_by_session : String → Option String → Bool → Documents → List Document
unfolding is_listed in_collection
list_documents_by_session session_id collection ephemeral_only documents =
    in_collection collection (select (is_listed session_id ephemeral_only) (Dict.values documents))

-- The loop over `to_delete`, with the ids that were deleted.
unfoldable pub delete_listed : List Document → Documents → List String × Documents
unfolding delete_document
delete_listed [] documents = ([], documents)
delete_listed (document ∷ to_delete) documents =
    let (deleted, rest) = delete_document document.document_id documents in
    let (ids, final) = delete_listed to_delete rest in
    if deleted then (document.document_id ∷ ids, final) else (ids, final)

unfoldable pub delete_documents_by_session : String → Bool → Documents → List String × Documents
unfolding delete_listed list_documents_by_session
delete_documents_by_session session_id ephemeral_only documents =
    delete_listed (list_documents_by_session session_id none ephemeral_only documents) documents
