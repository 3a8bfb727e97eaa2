-- ===== src/Repositories/Documents/Deletion.antt =====
-- Deleting the documents of a session.
use enterprise_llm_assistant.Prelude.{
  ℕ, String, Bool, false, none, some, List, [], ◌∷◌, ◌≡◌, refl, arith, inl, inr, ◌||◌,
}
use enterprise_llm_assistant.Prelude.{◌==◌, string_eq, if◌then◌else◌, Bool-cases, ==_cases, select}
use enterprise_llm_assistant.Core.Json.{Json}
use enterprise_llm_assistant.Prelude.Dict.{Dict}
use enterprise_llm_assistant.Prelude.Dict
use enterprise_llm_assistant.Repositories.Documents.{
  save_document, Document, Documents, get_document, delete_document, delete_listed,
  delete_documents_by_session, is_listed,
}

-- One of the documents has the id.
abbrev names : String → List Document → Bool
names document_id [] = false
names document_id (d ∷ ds) = document_id == d.document_id || names document_id ds

get_document-delete_listed :
    (to_delete : List Document) (document_id : String) (documents : Documents)
    → get_document document_id (delete_listed to_delete documents).1
      ≡ (if names document_id to_delete then none else get_document document_id documents)
unfolding delete_listed get_document
get_document-delete_listed [] document_id documents = refl
get_document-delete_listed (d ∷ ds) document_id documents = ground (
  arith,
  get_document-delete_listed ds document_id (Dict.erase d.document_id documents),
  Dict.lookup-erase document_id d.document_id documents,
)

-- A document is filed under its own id, and no id is filed twice.
abbrev pub IsKeyed : Documents → Type 0
IsKeyed [] = Unit
IsKeyed ((key, document) ∷ documents) =
    (document.document_id ≡ key) × (Dict.lookup key documents ≡ none) × IsKeyed documents

IsKeyed-insert :
    (document : Document) (documents : Documents)
    → IsKeyed documents
    → IsKeyed (Dict.insert document.document_id document documents)
unfolding Dict.insert Dict.lookup
IsKeyed-insert document [] h = (refl, refl, tt)
IsKeyed-insert document ((key, d) ∷ documents) (own, fresh, h) =
    elim (==_cases document.document_id key) [
      | inl (same, e) ↦ rw (same, Dict.insert) (refl, ground arith, h)
      | inr (differ, apart) ↦
          rw (differ, Dict.insert)
            (
              own,
              ground (arith, Dict.lookup-insert key document.document_id document documents),
              IsKeyed-insert document documents h,
            )
    ]

IsKeyed-erase :
    (document_id : String) (documents : Documents)
    → IsKeyed documents
    → IsKeyed (Dict.erase document_id documents)
unfolding Dict.erase Dict.lookup
IsKeyed-erase document_id [] h = tt
IsKeyed-erase document_id ((key, d) ∷ documents) (own, fresh, h) =
    elim (Bool-cases (document_id == key)) [
      | inl same ↦ rw (same, Dict.erase) (IsKeyed-erase document_id documents h)
      | inr differ ↦
          rw (differ, Dict.erase)
            (
              own,
              ground (arith, Dict.lookup-erase key document_id documents),
              IsKeyed-erase document_id documents h,
            )
    ]

names-select :
    (test : Document → Bool) (documents : Documents) (document_id : String)
    → IsKeyed documents
    → names document_id (select test (Dict.values documents))
      ≡ elim (Dict.lookup document_id documents) [ none ↦ false | some d ↦ test d ]
unfolding Dict.lookup Dict.values
names-select test [] document_id h = refl
names-select test ((key, d) ∷ documents) document_id (own, fresh, h) =
    ground (arith, names-select test documents document_id h)

-- One operation that changes the repository.
pub data Step : Documents → Documents → Type 0 where
  saved :
      (document_id filename collection : String) (chunk_count : ℕ) (metadata : Dict String Json)
      (documents : Documents)
      → Step documents
          (save_document document_id filename collection chunk_count metadata documents)
  deleted :
      (document_id : String) (documents : Documents)
      → Step documents (delete_document document_id documents).1
  session_deleted :
      (session_id : String) (ephemeral_only : Bool) (documents : Documents)
      → Step documents (delete_documents_by_session session_id ephemeral_only documents).1

-- The repositories that a process can have.
pub data Reached : Documents → Type 0 where
  started : Reached []
  next : {d e : Documents} → Reached d → Step d e → Reached e

delete_listed-cons :
    (d : Document) (ds : List Document) (documents : Documents)
    → (delete_listed (d ∷ ds) documents).1
      ≡ (delete_listed ds (Dict.erase d.document_id documents)).1
unfolding delete_listed
delete_listed-cons d ds documents = ground arith

delete_listed-IsKeyed :
    (to_delete : List Document) (documents : Documents)
    → IsKeyed documents
    → IsKeyed (delete_listed to_delete documents).1
unfolding delete_listed
delete_listed-IsKeyed [] documents h = h
delete_listed-IsKeyed (d ∷ ds) documents h = rw (delete_listed-cons d ds documents) (
    delete_listed-IsKeyed ds (Dict.erase d.document_id documents)
      (IsKeyed-erase d.document_id documents h))

Step-IsKeyed : {d e : Documents} → Step d e → IsKeyed d → IsKeyed e
unfolding save_document delete_document delete_documents_by_session
Step-IsKeyed (saved document_id filename collection chunk_count metadata documents) h =
    IsKeyed-insert
      (record {
        document_id = document_id;
        filename = filename;
        collection = collection;
        chunk_count = chunk_count;
        metadata = metadata;
      })
      documents h
Step-IsKeyed (deleted document_id documents) h = IsKeyed-erase document_id documents h
Step-IsKeyed (session_deleted session_id ephemeral_only documents) h =
    delete_listed-IsKeyed _ documents h

Reached-IsKeyed : {d : Documents} → Reached d → IsKeyed d
Reached-IsKeyed started = tt
Reached-IsKeyed (next r st) = Step-IsKeyed st (Reached-IsKeyed r)

-- In a repository that is reached from the empty one by its operations, deleting the documents of a session removes exactly the documents whose metadata name the session, or of these the ephemeral ones alone, and leaves every other document as it was.
pub delete_documents_by_session-exact :
    (session_id : String) (ephemeral_only : Bool) (document_id : String) {documents : Documents}
    → Reached documents
    → get_document document_id (delete_documents_by_session session_id ephemeral_only documents).1
      ≡ elim (get_document document_id documents) [
        | none ↦ none
        | some d ↦ if is_listed session_id ephemeral_only d then none else some d
      ]
unfolding delete_documents_by_session get_document
delete_documents_by_session-exact session_id ephemeral_only document_id {documents} r = ground (
  arith,
  get_document-delete_listed (select (is_listed session_id ephemeral_only) (Dict.values documents))
      document_id documents,
  names-select (is_listed session_id ephemeral_only) documents document_id (Reached-IsKeyed r),
)
