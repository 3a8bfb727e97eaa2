-- ===== src/Ingestion/Service.antt =====
-- app/services/ingestion_service.py, `IngestionService`. The embedding client and the vector database are a
-- parameter.
pub mod Indexing
use Prim.Native.String
use Prim.Native.String.{String}
use Prim.Native.Char.{Char}
use enterprise_llm_assistant.Core.Exceptions.{app}
use enterprise_llm_assistant.Core.Json.{Json, text, number}
use enterprise_llm_assistant.Prelude.Int.{pos}
use enterprise_llm_assistant.Core.Settings.{Settings}
use enterprise_llm_assistant.Ingestion.Extraction
use enterprise_llm_assistant.Ingestion.Extraction.{
  Extracted, Registry, resolve_filename, resolve_url,
}
use enterprise_llm_assistant.Ingestion.Splitter.{split}
use enterprise_llm_assistant.Prelude.{ℕ, suc, Bool, true, false, Option, none, some, List, [], ◌∷◌}
use enterprise_llm_assistant.Prelude.{string_eq, if◌then◌else◌, length}
use enterprise_llm_assistant.Prelude.Text.{truthy}
use enterprise_llm_assistant.Prelude.Dict
use enterprise_llm_assistant.Prelude.Dict.{Dict}
use enterprise_llm_assistant.Prelude.Exec.{
  Result, ok, raised, Exec, pure, raise, modify, ◌>>=◌, ◌>>◌,
}
use enterprise_llm_assistant.Repositories.Documents
use enterprise_llm_assistant.Repositories.Documents.{Documents}
use mathlib.Core.List

-- A point's payload.
abbrev pub Payload : Type 0
Payload = Dict String Json

pub record Vectors : Type 1 where
  pub State : Type 0
  pub Vector : Type 0
  pub embed : List String → Exec State (List Vector)
  pub ensure_collection : String → ℕ → Exec State Unit
  pub upsert : String → List Vector → List Payload → Exec State Unit
  pub delete_by_document_id : String → String → Exec State ℕ
  pub delete_by_session_id : String → String → Exec State ℕ

pub record Ingestion (V : Type 0) : Type 0 where
  pub vectors : V
  pub documents : Documents

pub record Indexed : Type 0 where
  pub document_id : String
  pub filename : String
  pub chunks_indexed : ℕ
  pub source_type : Json
  pub collection : String

-- A string is the list of its characters.
unfoldable pub characters : String → List Char
characters String.[] = []
characters (String.◌∷◌ c s) = c ∷ characters s

unfoldable pub of_characters : List Char → String
of_characters [] = String.[]
of_characters (c ∷ cs) = String.◌∷◌ c (of_characters cs)

-- `{}` for no metadata.
abbrev given : Option (Dict String Json) → Dict String Json
given none = []
given (some metadata) = metadata

-- The metadata of the document come last, and replace what has their keys.
unfoldable pub payloads : String → String → Dict String Json → ℕ → List String → List Payload
unfolding Dict.merged
payloads document_id filename metadata index [] = []
payloads document_id filename metadata index (chunk ∷ chunks) =
    Dict.merged
      (("content", text chunk)
        ∷ ("document_id", text document_id)
        ∷ ("filename", text filename)
        ∷ ("chunk_index", number (pos index))
        ∷ [])
      metadata
    ∷ payloads document_id filename metadata (suc index) chunks

module _ (V : Vectors) (cfg : Settings) (chunk_size chunk_overlap : Option ℕ) where
  abbrev pub M : Type 0 → Type 0
  M A = Exec (Ingestion V.State) A

  on_vectors : {A : Type 0} → Exec V.State A → M A
  on_vectors m s = ((m s.vectors).0, record s { vectors = (m s.vectors).1 })

  unfoldable pub chunks_of : String → List String
  chunks_of content =
      List.map of_characters (split cfg chunk_size chunk_overlap (characters content))

  -- `metadata.get("source_type", "unknown")`
  abbrev pub source_type_of : Dict String Json → Json
  source_type_of metadata = elim (Dict.lookup "source_type" metadata) [
    | none ↦ text "unknown"
    | some t ↦ t
  ]

  store_chunks : String → List String → String → String → Dict String Json → M Indexed
  unfolding on_vectors payloads
  store_chunks document_id chunks filename collection metadata = do
    embeddings ← on_vectors (V.embed chunks)
    on_vectors (V.ensure_collection collection cfg.embedding_dimension)
    on_vectors (V.upsert collection embeddings (payloads document_id filename metadata 0 chunks))
    modify (λ s. record s {
      documents =
          Documents.save_document document_id filename collection (length chunks) metadata
            s.documents;
    })
    pure (record {
      document_id = document_id;
      filename = filename;
      chunks_indexed = length chunks;
      source_type = source_type_of metadata;
      collection = collection;
    })

  -- `_index_text`; `document_id` is what `uuid4` draws.
  unfoldable pub index_text : String → String → String → String → Dict String Json → M Indexed
  unfolding store_chunks
  index_text document_id content filename collection metadata = elim (chunks_of content) [
    | [] ↦ raise (app "No extractable text found in document" 422)
    | ◌∷◌ chunk chunks ↦ store_chunks document_id (chunk ∷ chunks) filename collection metadata
  ]

  index_extracted : String → Extracted → String → String → Dict String Json → M Indexed
  index_extracted document_id extracted filename collection metadata =
      index_text document_id extracted.text filename collection
        (Dict.merged metadata extracted.metadata)

  unfoldable pub ingest :
      Registry → String → List ℕ → String → String → Option (Dict String Json) → M Indexed
  unfolding index_extracted
  ingest registry document_id file_bytes filename collection metadata = do
    extractor ← (λ s. (resolve_filename filename registry, s))
    extracted ← (λ s. (extractor.extract_bytes file_bytes filename, s))
    index_extracted document_id extracted filename collection
        (Dict.insert "source_type" (text extracted.source_type) (given metadata))

  unfoldable pub ingest_url :
      Registry → String → String → String → Option (Dict String Json) → M Indexed
  unfolding index_extracted
  ingest_url registry document_id url collection metadata = do
    extractor ← (λ s. (resolve_url url registry, s))
    extracted ← (λ s. (extractor.extract_url url, s))
    index_extracted document_id extracted
        (elim extracted.filename [ none ↦ url | some name ↦ if truthy name then name else url ])
        collection
        (Dict.insert "source_url" (text url)
          (Dict.insert "source_type" (text extracted.source_type) (given metadata)))
