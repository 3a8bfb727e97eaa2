-- ===== src/Memory.antt =====
-- app/memory: the messages of a conversation and the limits on what is read back of them.
pub mod Trim
pub mod History
use Prim.Native.String.{count}
use enterprise_llm_assistant.Core.Settings.{Settings, or_default}
use enterprise_llm_assistant.Prelude.{
  ℕ, zero, suc, ◌+◌, ◌-◌, String, Bool, true, false, Option, none, some, List, [], ◌∷◌, ◌++◌,
  reverse,
}
use enterprise_llm_assistant.Prelude.{string_eq, ltb, length, drop}
use enterprise_llm_assistant.Prelude.Dict
use enterprise_llm_assistant.Prelude.Dict.{Dict}

pub record Message : Type 0 where
  pub role : String
  pub content : String

-- `len(message["content"])`
abbrev pub size : Message → ℕ
size m = count m.content

-- The loop of `_trim_by_chars` over the reversed messages, with `selected` and `total_chars`.
unfoldable pub select_recent : ℕ → List Message → List Message → ℕ → List Message
select_recent max_chars [] selected total_chars = selected
select_recent max_chars (message ∷ rest) [] total_chars =
    select_recent max_chars rest (message ∷ []) (total_chars + size message)
select_recent max_chars (message ∷ rest) (m ∷ selected) total_chars =
    elim (ltb max_chars (total_chars + size message)) [
      | true ↦ m ∷ selected
      | false ↦
          select_recent max_chars rest ((m ∷ selected) ++ message ∷ []) (total_chars + size message)
    ]

unfoldable pub trim_by_chars : List Message → ℕ → List Message
unfolding select_recent
trim_by_chars messages max_chars = reverse (select_recent max_chars (reverse messages) [] 0)

-- `messages[-n:]`; `messages[-0:]` is the whole list.
unfoldable pub last_n : ℕ → List Message → List Message
last_n zero messages = messages
last_n (suc n) messages = drop (length messages - suc n) messages

unfoldable pub apply_limits : Settings → List Message → Option ℕ → Option ℕ → List Message
unfolding or_default last_n trim_by_chars
apply_limits cfg messages limit max_chars =
    trim_by_chars (last_n (or_default limit cfg.memory_max_messages) messages)
      (or_default max_chars cfg.memory_max_chars)

-- `InMemoryConversationMemory._sessions`
abbrev pub Memory : Type 0
Memory = Dict String (List Message)

-- `self._sessions.get(session_id, [])`
unfoldable pub messages_of : String → Memory → List Message
messages_of session_id memory = elim (Dict.lookup session_id memory) [ none ↦ [] | some ms ↦ ms ]

unfoldable pub append : String → String → String → Memory → Memory
unfolding messages_of
append session_id role content memory =
    Dict.insert session_id
      (messages_of session_id memory ++ record { role = role; content = content } ∷ []) memory

unfoldable pub get_history : Settings → String → Option ℕ → Option ℕ → Memory → List Message
unfolding apply_limits
get_history cfg session_id limit max_chars memory = elim (messages_of session_id memory) [
  | [] ↦ []
  | m ∷ ms ↦ apply_limits cfg (m ∷ ms) limit max_chars
]

unfoldable pub clear : String → Memory → Memory
clear session_id memory = Dict.erase session_id memory

-- `message_count` of `summary`
unfoldable pub summary : String → Memory → ℕ
unfolding messages_of
summary session_id memory = length (messages_of session_id memory)
