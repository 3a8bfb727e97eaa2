-- ===== src/Services/ChatService.antt =====
-- app/services/chat_service.py, `ChatService`, over the in-memory conversation memory. The retriever and the
-- embedding client are parameters, given both or neither.
pub mod Streaming
pub mod Conversation
use enterprise_llm_assistant.Core.Exceptions.{index_error}
use enterprise_llm_assistant.Core.Settings.{Settings}
use enterprise_llm_assistant.Memory
use enterprise_llm_assistant.Memory.{Memory, Message}
use enterprise_llm_assistant.Policies.Retry.{RetryPolicy}
use enterprise_llm_assistant.Prelude.{
  ℕ, String, Bool, true, false, ◌||◌, ◌&&◌, Option, none, some, List, [], ◌∷◌,
}
use enterprise_llm_assistant.Prelude.{if◌then◌else◌}
use enterprise_llm_assistant.Prelude.Text.{truthy, lower, strip}
use enterprise_llm_assistant.Prelude.Dict.{Dict}
use enterprise_llm_assistant.Prelude.Exec.{Result, ok, raised, Exec, pure, ◌>>=◌, ◌>>◌}
use enterprise_llm_assistant.Security.Guardrails.{any_occurs, validate}
use enterprise_llm_assistant.Services.LlmService
use enterprise_llm_assistant.Services.LlmService.{LlmResult, Provider, Cache, Llm}
use enterprise_llm_assistant.Services.Prompts.{build_chat_prompt}
use mathlib.Core.List

-- The embedding client and the retriever, with the scores, metadata and filters that they pass on.
pub record Search : Type 1 where
  pub State : Type 0
  pub Vector : Type 0
  pub Chunk : Type 0
  pub Value : Type 0
  pub content : Chunk → String
  pub embed : List String → Exec State (List Vector)
  pub retrieve : Vector → String → String → Option (Dict String Value) → Exec State (List Chunk)

pub record ChatRequest (V : Type 0) : Type 0 where
  pub question : String
  pub session_id : Option String
  pub use_rag : Bool
  pub use_memory : Bool
  pub collection : String
  pub metadata_filter : Dict String V

pub record ChatResponse (C : Type 0) : Type 0 where
  pub answer : String
  pub session_id : String
  pub sources : List C
  pub prompt_tokens : ℕ
  pub completion_tokens : ℕ
  pub total_tokens : ℕ
  pub cost_usd : ℕ
  pub cached : Bool

pub record Chat (P C S : Type 0) : Type 0 where
  pub llm : Llm P C
  pub memory : Memory
  pub search : Option S

-- `request.session_id or str(uuid4())`
unfoldable pub session_of : String → Option String → String
session_of uuid none = uuid
session_of uuid (some session_id) = if truthy session_id then session_id else uuid

-- `d or None`
abbrev pub or_none {ℓ} : {A : Type ℓ} → List A → Option (List A)
or_none [] = none
or_none (x ∷ xs) = some (x ∷ xs)

abbrev pub has_entries {ℓ} : {A : Type ℓ} → List A → Bool
has_entries [] = false
has_entries (x ∷ xs) = true

-- `_detect_intent(question) == "rag"`
unfoldable pub detects_rag : String → Bool
unfolding any_occurs
detects_rag question =
    any_occurs ("search" ∷ "document" ∷ "policy" ∷ "knowledge" ∷ []) (lower question)

module _ (P : Provider) (K : Cache) (S : Search) (cfg : Settings) (policy : RetryPolicy)
    (timeout : Option ℕ) where
  abbrev pub M : Type 0 → Type 0
  M A = Exec (Chat P.State K.State S.State) A

  -- `use_rag`
  unfoldable pub wants_rag : ChatRequest S.Value → Bool
  wants_rag request =
      request.use_rag || has_entries request.metadata_filter || detects_rag request.question

  unfoldable pub get_history : String → Bool → M (List Message)
  get_history session_id use_memory s = (
    ok (
        if use_memory && cfg.memory_enabled
        then Memory.get_history cfg session_id none none s.memory
        else []),
    s,
  )

  first_vector : List S.Vector → Result S.Vector
  first_vector [] = raised (index_error "list index out of range")
  first_vector (v ∷ vs) = ok v

  retrieve_from : ChatRequest S.Value → Exec S.State (List S.Chunk)
  unfolding first_vector
  retrieve_from request = do
    embeddings ← S.embed (request.question ∷ [])
    vector ← (λ s. (first_vector embeddings, s))
    S.retrieve vector request.question request.collection (or_none request.metadata_filter)

  unfoldable pub retrieve_context : ChatRequest S.Value → Bool → M (List S.Chunk)
  unfolding retrieve_from
  retrieve_context request use_rag s =
      if use_rag
      then elim s.search [
        | none ↦ (ok [], s)
        | some c ↦ let (r, c') = retrieve_from request c in (r, record s { search = some c' })
      ]
      else (ok [], s)

  unfoldable pub build_prompt : ChatRequest S.Value → String → Bool → M (String × List S.Chunk)
  unfolding get_history retrieve_context
  build_prompt request session_id use_rag = do
    history ← get_history session_id request.use_memory
    context_chunks ← retrieve_context request use_rag
    pure (
      build_chat_prompt cfg request.question (List.map S.content context_chunks) history none,
      context_chunks,
    )

  unfoldable pub save_exchange : String → String → String → Bool → M Unit
  save_exchange session_id question answer use_memory s =
      if use_memory && cfg.memory_enabled
      then (
        ok tt,
        record s {
          memory =
              Memory.append session_id "assistant" answer
                (Memory.append session_id "user" question s.memory);
        },
      )
      else (ok tt, s)

  on_llm : {A : Type 0} → Exec (Llm P.State K.State) A → M A
  on_llm m s = ((m s.llm).0, record s { llm = (m s.llm).1 })

  abbrev response : String → LlmResult → String → List S.Chunk → ChatResponse S.Chunk
  response session_id result answer chunks = record {
    answer = answer;
    session_id = session_id;
    sources = chunks;
    prompt_tokens = result.prompt_tokens;
    completion_tokens = result.completion_tokens;
    total_tokens = result.total_tokens;
    cost_usd = result.cost_usd;
    cached = result.cached;
  }

  -- `chat` in a session, after the guardrails.
  chat_in : ℕ → ℕ → String → ChatRequest S.Value → M (ChatResponse S.Chunk)
  unfolding build_prompt on_llm save_exchange
  chat_in now failed_at session_id request = do
    (prompt, context_chunks) ← build_prompt request session_id (wants_rag request)
    result ← on_llm (LlmService.generate P K cfg policy timeout now failed_at prompt)
    save_exchange session_id request.question (strip result.content) request.use_memory
    pure (response session_id result (strip result.content) context_chunks)

  -- `chat`, with the id that `uuid4` draws and the breaker's two readings of the clock.
  unfoldable pub chat : String → ℕ → ℕ → ChatRequest S.Value → M (ChatResponse S.Chunk)
  unfolding chat_in
  chat uuid now failed_at request = do
    (λ s. (validate request.question, s))
    chat_in now failed_at (session_of uuid request.session_id) request
