-- ===== src/Services/ChatService/Conversation.antt =====
-- `ChatService`: what a request leaves in the conversation memory.
use mathlib.Core.List.{append-nil}
use enterprise_llm_assistant.Core.Exceptions.{Exception, guardrail}
use enterprise_llm_assistant.Core.Settings.{Settings}
use enterprise_llm_assistant.Memory
use enterprise_llm_assistant.Memory.{Memory}
use enterprise_llm_assistant.Policies.Retry.{RetryPolicy}
use enterprise_llm_assistant.Prelude.{
  ℕ, String, Bool, true, ◌&&◌, Option, none, some, List, [], ◌∷◌, ◌++◌, ◌≡◌, refl, arith, ap, ◌∙◌,
}
use enterprise_llm_assistant.Prelude.{if◌then◌else◌}
use enterprise_llm_assistant.Prelude.Text.{lower, join}
use enterprise_llm_assistant.Prelude.Exec.{Result, ok, raised}
use enterprise_llm_assistant.Security.Guardrails.{any_occurs, injection_phrases, validate}
use enterprise_llm_assistant.Services.LlmService.{Provider, Cache}
use enterprise_llm_assistant.Services.ChatService.Streaming.{
  ChatEvent, token, sources, done, stream_events, stream_in, stream_answer, stream_chunks, tokens,
}
use enterprise_llm_assistant.Services.ChatService.{
  Search, ChatRequest, ChatResponse, Chat, chat, chat_in, build_prompt, get_history,
  retrieve_context, retrieve_from, on_llm, save_exchange, session_of, wants_rag,
}

-- The texts of the tokens.
abbrev pub token_texts : {C : Type 0} → List (ChatEvent C) → List String
token_texts [] = []
token_texts (token text ∷ events) = text ∷ token_texts events
token_texts (sources _ _ ∷ events) = token_texts events
token_texts (done ∷ events) = token_texts events

module _ (P : Provider) (K : Cache) (S : Search) (cfg : Settings) (policy : RetryPolicy)
    (timeout : Option ℕ) where
  -- The memory after an exchange, if the request and the settings use it.
  abbrev pub remembered : ChatRequest S.Value → String → String → Memory → Memory
  remembered request session_id answer memory =
      if request.use_memory && cfg.memory_enabled
      then Memory.append session_id "assistant" answer
          (Memory.append session_id "user" request.question memory)
      else memory

  abbrev pub memory_after : ChatRequest S.Value → Result (ChatResponse S.Chunk) → Memory → Memory
  memory_after request (raised e) memory = memory
  memory_after request (ok r) memory = remembered request r.session_id r.answer memory

  -- A question that holds one of the guardrails' phrases, in any case of its letters, is refused with
  -- `GuardrailException` by `chat` and by `stream_events`, and nothing changes.
  pub chat-blocked :
      (uuid : String) (now failed_at : ℕ) (request : ChatRequest S.Value)
      (s : Chat P.State K.State S.State)
      → any_occurs injection_phrases (lower request.question) ≡ true
      → (chat P K S cfg policy timeout uuid now failed_at request s
          ≡ (raised (guardrail "Potential prompt injection detected"), s))
        × (stream_events P K S cfg policy timeout uuid request s
            ≡ (([], some (guardrail "Potential prompt injection detected")), s))
  unfolding chat stream_events validate
  chat-blocked uuid now failed_at request s blocked = (ground arith, ground arith)

  -- If `chat` returns an answer, the memory has the question and the answer appended to the session of the
  -- response, if the request and the settings use the memory, and is as before if not; if it raises, the
  -- memory is as before.
  pub chat-memory :
      (uuid : String) (now failed_at : ℕ) (request : ChatRequest S.Value)
      (s : Chat P.State K.State S.State)
      → (chat P K S cfg policy timeout uuid now failed_at request s).1.memory
        ≡ memory_after request
            (chat P K S cfg policy timeout uuid now failed_at request s).0
            s.memory
  unfolding chat chat_in build_prompt get_history retrieve_context retrieve_from on_llm
      save_exchange validate
  chat-memory uuid now failed_at request s = ground arith

  token_texts-tokens :
      (chunks : List String) (rest : List (ChatEvent S.Chunk))
      → token_texts (tokens P K S cfg policy timeout chunks ++ rest) ≡ chunks ++ token_texts rest
  unfolding tokens
  token_texts-tokens [] rest = refl
  token_texts-tokens (chunk ∷ chunks) rest =
      ap (λ (texts : List String). chunk ∷ texts) (token_texts-tokens chunks rest)

  answer_texts :
      (chunks : List String) (session_id : String) (context_chunks : List S.Chunk)
      → token_texts
          (tokens P K S cfg policy timeout chunks ++ sources session_id context_chunks ∷ done ∷ [])
        ≡ chunks
  answer_texts chunks session_id context_chunks =
      token_texts-tokens chunks (sources session_id context_chunks ∷ done ∷ []) ∙ append-nil chunks

  -- The memory after a stream: a stream that broke off is not saved.
  abbrev pub memory_streamed :
      ChatRequest S.Value → String → List (ChatEvent S.Chunk) × Option Exception → Memory → Memory
  memory_streamed request session_id (events, some e) memory = memory
  memory_streamed request session_id (events, none) memory =
      remembered request session_id (join "" (token_texts events)) memory

  stream_answer-memory :
      (request : ChatRequest S.Value) (session_id : String) (context_chunks : List S.Chunk)
      (answer : List String × Option Exception) (s : Chat P.State K.State S.State)
      → (stream_answer P K S cfg policy timeout request session_id context_chunks answer s).1.memory
        ≡ memory_streamed request session_id
            (stream_answer P K S cfg policy timeout request session_id context_chunks answer s).0
            s.memory
  unfolding stream_answer save_exchange
  stream_answer-memory request session_id context_chunks (chunks, some e) s = refl
  stream_answer-memory request session_id context_chunks (chunks, none) s =
      ground (arith, answer_texts chunks session_id context_chunks)

  stream_in-memory :
      (request : ChatRequest S.Value) (session_id : String) (r : Result (String × List S.Chunk))
      (s : Chat P.State K.State S.State)
      → (stream_in P K S cfg policy timeout request session_id r s).1.memory
        ≡ memory_streamed request session_id
            (stream_in P K S cfg policy timeout request session_id r s).0
            s.memory
  unfolding stream_in stream_chunks
  stream_in-memory request session_id (raised e) s = refl
  stream_in-memory request session_id (ok (prompt, context_chunks)) s =
      stream_answer-memory request session_id context_chunks
        (stream_chunks P K S cfg policy timeout prompt s).0
        (stream_chunks P K S cfg policy timeout prompt s).1

  build_prompt-memory :
      (request : ChatRequest S.Value) (session_id : String) (use_rag : Bool)
      (s : Chat P.State K.State S.State)
      → (build_prompt P K S cfg policy timeout request session_id use_rag s).1.memory ≡ s.memory
  unfolding build_prompt get_history retrieve_context retrieve_from
  build_prompt-memory request session_id use_rag s = ground arith

  -- If the events of a request end without an exception, the memory has the question and the joined texts of the tokens appended to the request's session, or a new one, if the request and the settings use the memory; if not, or if an exception ends them, the memory is as before.
  pub stream_events-memory :
      (uuid : String) (request : ChatRequest S.Value) (s : Chat P.State K.State S.State)
      → (stream_events P K S cfg policy timeout uuid request s).1.memory
        ≡ memory_streamed request
            (session_of uuid request.session_id)
            (stream_events P K S cfg policy timeout uuid request s).0
            s.memory
  unfolding stream_events validate
  stream_events-memory uuid request s =
      let session_id = session_of uuid request.session_id in
      let prompt =
        build_prompt P K S cfg policy timeout request session_id
          (wants_rag P K S cfg policy timeout request) s in
      ground (
        arith,
        stream_in-memory request session_id prompt.0 prompt.1,
        build_prompt-memory request session_id (wants_rag P K S cfg policy timeout request) s,
      )
