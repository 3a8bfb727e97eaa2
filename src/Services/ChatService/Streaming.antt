-- ===== src/Services/ChatService/Streaming.antt =====
-- app/services/chat_service.py, `ChatService.stream` and `stream_events`, each to its end.
use enterprise_llm_assistant.Core.Exceptions.{Exception}
use enterprise_llm_assistant.Core.Settings.{Settings}
use enterprise_llm_assistant.Policies.Retry.{RetryPolicy}
use enterprise_llm_assistant.Prelude.{ℕ, String, Option, none, some, List, [], ◌∷◌, ◌++◌}
use enterprise_llm_assistant.Prelude.Text.{join}
use enterprise_llm_assistant.Prelude.Exec.{Result, ok, raised}
use enterprise_llm_assistant.Security.Guardrails.{validate}
use enterprise_llm_assistant.Services.LlmService
use enterprise_llm_assistant.Services.LlmService.{LlmResult, Provider, Cache, Llm}
use enterprise_llm_assistant.Services.ChatService.{
  Search, ChatRequest, Chat, session_of, wants_rag, build_prompt, save_exchange,
}

-- What `stream_events` yields.
pub data ChatEvent (C : Type 0) : Type 0 where
  token : String → ChatEvent C
  sources : String → List C → ChatEvent C
  done : ChatEvent C

module _ (P : Provider) (K : Cache) (S : Search) (cfg : Settings) (policy : RetryPolicy)
    (timeout : Option ℕ) where
  unfoldable pub tokens : List String → List (ChatEvent S.Chunk)
  tokens [] = []
  tokens (chunk ∷ chunks) = token chunk ∷ tokens chunks

  -- The chunks of the answer, with the exception that ends them or none.
  unfoldable pub stream_chunks :
      String
      → Chat P.State K.State S.State
      → (List String × Option Exception) × Chat P.State K.State S.State
  stream_chunks prompt s =
      let (answer, llm) = LlmService.stream P K cfg policy timeout prompt s.llm in
      (answer, record s { llm = llm })

  -- What follows the prompt: a stream that breaks off is not saved, and yields no event after its tokens.
  unfoldable pub stream_answer :
      ChatRequest S.Value
      → String
      → List S.Chunk
      → List String × Option Exception
      → Chat P.State K.State S.State
      → (List (ChatEvent S.Chunk) × Option Exception) × Chat P.State K.State S.State
  unfolding save_exchange tokens
  stream_answer request session_id context_chunks (chunks, some e) s = ((tokens chunks, some e), s)
  stream_answer request session_id context_chunks (chunks, none) s = (
    (tokens chunks ++ sources session_id context_chunks ∷ done ∷ [], none),
    (save_exchange P K S cfg policy timeout session_id request.question (join "" chunks)
        request.use_memory s).1,
  )

  unfoldable pub stream_in :
      ChatRequest S.Value
      → String
      → Result (String × List S.Chunk)
      → Chat P.State K.State S.State
      → (List (ChatEvent S.Chunk) × Option Exception) × Chat P.State K.State S.State
  unfolding stream_answer stream_chunks
  stream_in request session_id (raised e) s = (([], some e), s)
  stream_in request session_id (ok (prompt, context_chunks)) s =
      let (answer, t) = stream_chunks prompt s in
      stream_answer request session_id context_chunks answer t

  -- `stream_events`, to its end.
  unfoldable pub stream_events :
      String
      → ChatRequest S.Value
      → Chat P.State K.State S.State
      → (List (ChatEvent S.Chunk) × Option Exception) × Chat P.State K.State S.State
  unfolding stream_in build_prompt
  stream_events uuid request s =
      let session_id = session_of uuid request.session_id in
      elim (validate request.question) [
        | raised e ↦ (([], some e), s)
        | ok _ ↦
            let (r, t) =
              build_prompt P K S cfg policy timeout request session_id
                (wants_rag P K S cfg policy timeout request) s in
            stream_in request session_id r t
      ]

  save_streamed :
      ChatRequest S.Value
      → String
      → List String × Option Exception
      → Chat P.State K.State S.State
      → (List String × Option Exception) × Chat P.State K.State S.State
  unfolding save_exchange
  save_streamed request session_id (chunks, some e) s = ((chunks, some e), s)
  save_streamed request session_id (chunks, none) s = (
    (chunks, none),
    (save_exchange P K S cfg policy timeout session_id request.question (join "" chunks)
        request.use_memory s).1,
  )

  stream_text :
      ChatRequest S.Value
      → String
      → Result (String × List S.Chunk)
      → Chat P.State K.State S.State
      → (List String × Option Exception) × Chat P.State K.State S.State
  unfolding save_streamed stream_chunks
  stream_text request session_id (raised e) s = (([], some e), s)
  stream_text request session_id (ok (prompt, _)) s =
      let (answer, t) = stream_chunks prompt s in save_streamed request session_id answer t

  -- `stream`, to its end.
  unfoldable pub stream :
      String
      → ChatRequest S.Value
      → Chat P.State K.State S.State
      → (List String × Option Exception) × Chat P.State K.State S.State
  unfolding stream_text build_prompt
  stream uuid request s =
      let session_id = session_of uuid request.session_id in
      elim (validate request.question) [
        | raised e ↦ (([], some e), s)
        | ok _ ↦
            let (r, t) =
              build_prompt P K S cfg policy timeout request session_id
                (wants_rag P K S cfg policy timeout request) s in
            stream_text request session_id r t
      ]
