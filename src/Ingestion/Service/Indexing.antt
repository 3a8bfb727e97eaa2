-- ===== src/Ingestion/Service/Indexing.antt =====
-- `IngestionService._index_text`: what it leaves in the document repository.
use enterprise_llm_assistant.Core.Json.{Json}
use enterprise_llm_assistant.Core.Settings.{Settings}
use enterprise_llm_assistant.Ingestion.Service.{
  Vectors, Ingestion, Indexed, index_text, chunks_of, store_chunks, on_vectors, payloads,
}
use enterprise_llm_assistant.Prelude.{
  ℕ, ◌<◌, String, Option, some, List, ◌∷◌, inl, inr, ◌≡◌, refl, arith,
}
use enterprise_llm_assistant.Prelude.{string_eq, ◌==◌, if◌then◌else◌, length, List-cases}
use enterprise_llm_assistant.Prelude.Dict
use enterprise_llm_assistant.Prelude.Dict.{Dict}
use enterprise_llm_assistant.Prelude.Exec.{Result, ok, raised, Result-cases}
use enterprise_llm_assistant.Repositories.Documents.{Documents, get_document, save_document}

-- Every entry after a document is saved.
get_document-save_document :
    (id document_id filename collection : String) (n : ℕ) (metadata : Dict String Json)
    (documents : Documents)
    → get_document id (save_document document_id filename collection n metadata documents) ≡ (
        if id == document_id
        then some (record {
          document_id = document_id;
          filename = filename;
          collection = collection;
          chunk_count = n;
          metadata = metadata;
        })
        else get_document id documents)
unfolding get_document save_document
get_document-save_document id document_id filename collection n metadata documents =
    Dict.lookup-insert id document_id
      (record {
        document_id = document_id;
        filename = filename;
        collection = collection;
        chunk_count = n;
        metadata = metadata;
      })
      documents

module _ (V : Vectors) (cfg : Settings) (chunk_size chunk_overlap : Option ℕ) where
  -- The outcome for a number of chunks, and every entry of the repository after it.
  abbrev pub IsIndexed :
      ℕ
      → String
      → String
      → String
      → Dict String Json
      → Documents
      → Result Indexed × Ingestion V.State
      → Type 0
  IsIndexed n document_id filename collection metadata before (raised e, t) =
      (id : String) → get_document id t.documents ≡ get_document id before
  IsIndexed n document_id filename collection metadata before (ok r, t) =
      (r.document_id ≡ document_id)
      × (r.filename ≡ filename)
      × (r.collection ≡ collection)
      × (r.chunks_indexed ≡ n)
      × (0 < n)
      × ((id : String)
          → get_document id t.documents ≡ (
              if id == document_id
              then some (record {
                document_id = document_id;
                filename = filename;
                collection = collection;
                chunk_count = n;
                metadata = metadata;
              })
              else get_document id before))

  store_chunks-IsIndexed :
      (document_id chunk filename collection : String) (chunks : List String)
      (metadata : Dict String Json) (s : Ingestion V.State)
      → IsIndexed (length (chunk ∷ chunks)) document_id filename collection metadata s.documents (
          store_chunks V cfg chunk_size chunk_overlap document_id
            (chunk ∷ chunks)
            filename
            collection
            metadata
            s)
  unfolding store_chunks on_vectors
  store_chunks-IsIndexed document_id chunk filename collection chunks metadata s =
      let all : List String = chunk ∷ chunks in
      let (embedded, v1) = V.embed all s.vectors in
      let (ensured, v2) = V.ensure_collection collection cfg.embedding_dimension v1 in
      elim (Result-cases embedded) [
        | inr (e, failed) ↦ rw failed (λ id. refl)
        | inl (vectors, e1) ↦ elim (Result-cases ensured) [
          | inr (e, failed) ↦ rw (e1, failed) (λ id. refl)
          | inl (_, e2) ↦
              let points = payloads document_id filename metadata 0 all in
              elim (Result-cases (V.upsert collection vectors points v2).0) [
                | inr (e, failed) ↦ rw (e1, e2, failed) (λ id. refl)
                | inl (_, e3) ↦
                    rw (e1, e2, e3)
                      (
                        refl,
                        refl,
                        refl,
                        refl,
                        omega arith,
                        λ id.
                            get_document-save_document id document_id filename collection
                              (length all) metadata s.documents,
                      )
              ]
        ]
      ]

  -- If `_index_text` returns, its answer has the given id, file name and collection and the number of the chunks of
  -- the text, which is not zero; the repository then has under that id a document with these and with the given
  -- metadata, and under every other id what it had. If it raises, the repository has under every id what it had.
  pub index_text-documents :
      (document_id content filename collection : String) (metadata : Dict String Json)
      (s : Ingestion V.State)
      → IsIndexed
          (length (chunks_of V cfg chunk_size chunk_overlap content))
          document_id
          filename
          collection
          metadata
          s.documents
          (index_text V cfg chunk_size chunk_overlap document_id content filename collection
            metadata s)
  unfolding index_text
  index_text-documents document_id content filename collection metadata s =
      elim (List-cases (chunks_of V cfg chunk_size chunk_overlap content)) [
        | inl empty ↦ rw (empty, index_text) (λ id. refl)
        | inr (chunk, chunks, parts) ↦
            rw (parts, index_text)
              (store_chunks-IsIndexed document_id chunk filename collection chunks metadata s)
      ]
