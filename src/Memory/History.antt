-- ===== src/Memory/History.antt =====
-- `InMemoryConversationMemory`: what a session reads back after `append` and `clear`.
use mathlib.Core.List.{append_assoc, reverse-append, cons≢nil, head-eq_of_cons-eq}
use enterprise_llm_assistant.Core.Settings.{Settings, or_default}
use enterprise_llm_assistant.Memory.Trim.{trim_by_chars-IsRecentRun}
use enterprise_llm_assistant.Prelude.{
  ℕ, zero, suc, ◌-◌, ◌≤◌, String, Option, some, List, [], ◌∷◌, ◌++◌, ◌≡◌, ◌≢◌, refl, sym, arith,
  ◌⊎◌, inl, inr, ◌∙◌, ap, reverse,
}
use enterprise_llm_assistant.Prelude.{length, take, length-append, length-drop, take-append-drop}
use enterprise_llm_assistant.Prelude.Dict.{dict_laws}
use enterprise_llm_assistant.Memory.{
  Message, Memory, last_n, apply_limits, messages_of, append, get_history, clear,
}

-- A part of a list that is not empty and ends it has its last element.
ends_with :
    (older kept earlier : List Message) (m : Message)
    → older ++ kept ≡ earlier ++ m ∷ []
    → kept ≢ []
    → (others : List Message) × kept ≡ others ++ m ∷ []
ends_with older [] earlier m e ne = absurd (ne refl)
ends_with older (k ∷ []) earlier m e ne = (
  [],
  ap (λ (x : Message). x ∷ [])
      (head-eq_of_cons-eq
        (sym (reverse-append older (k ∷ [])) ∙ ap reverse e ∙ reverse-append earlier (m ∷ []))),
)
ends_with older (k ∷ l ∷ kept) earlier m e ne =
    let (others, more) =
      ends_with (older ++ k ∷ []) (l ∷ kept) earlier m (append_assoc older (k ∷ []) (l ∷ kept) ∙ e)
        cons≢nil in
    (k ∷ others, ap (λ (xs : List Message). k ∷ xs) more)

last_n-suffix :
    (n : ℕ) (messages : List Message)
    → (older : List Message) × older ++ last_n n messages ≡ messages
unfolding last_n
last_n-suffix zero messages = ([], refl)
last_n-suffix (suc n) messages =
    (take (length messages - suc n) messages, take-append-drop (length messages - suc n) messages)

length-last_n : (n : ℕ) (messages : List Message) → length (last_n (suc n) messages) ≤ suc n
unfolding last_n
length-last_n n messages = omega (arith, length-drop (length messages - suc n) messages)

last_n-nonempty : (n : ℕ) (messages : List Message) → messages ≢ [] → last_n n messages ≢ []
unfolding last_n
last_n-nonempty zero messages ne = ne
last_n-nonempty (suc n) [] ne = absurd (ne refl)
last_n-nonempty (suc n) (m ∷ ms) ne = λ p.
    omega (
      arith,
      length-drop (length (m ∷ ms) - suc n) (m ∷ ms),
      ap (λ (xs : List Message). length xs) p,
    )

append-cons-nonempty : (xs : List Message) (m : Message) → xs ++ m ∷ [] ≢ []
append-cons-nonempty [] m = cons≢nil
append-cons-nonempty (x ∷ xs) m = cons≢nil

limited-suffix :
    (cfg : Settings) (limit max_chars : Option ℕ) (messages : List Message)
    → messages ≢ []
    → ((older : List Message) × older ++ apply_limits cfg messages limit max_chars ≡ messages)
      × (apply_limits cfg messages limit max_chars ≢ [])
unfolding apply_limits
limited-suffix cfg limit max_chars messages ne =
    let n = or_default limit cfg.memory_max_messages in
    let (before, before_eq) = last_n-suffix n messages in
    let run =
      trim_by_chars-IsRecentRun (last_n n messages) (or_default max_chars cfg.memory_max_chars)
        (last_n-nonempty n messages ne) in
    (
      (
        before ++ run.older,
        append_assoc before run.older _
            ∙ ap (λ (xs : List Message). before ++ xs) (sym run.splits)
            ∙ before_eq,
      ),
      run.keeps_one,
    )

length-limited :
    (cfg : Settings) (n : ℕ) (max_chars : Option ℕ) (messages : List Message)
    → messages ≢ []
    → length (apply_limits cfg messages (some (suc n)) max_chars) ≤ suc n
unfolding apply_limits or_default
length-limited cfg n max_chars messages ne =
    let run =
      trim_by_chars-IsRecentRun (last_n (suc n) messages)
        (or_default max_chars cfg.memory_max_chars) (last_n-nonempty (suc n) messages ne) in
    omega (
      arith,
      length-append run.older _,
      ap (λ (xs : List Message). length xs) run.splits,
      length-last_n n messages,
    )

List-cases : (xs : List Message) → (xs ≡ []) ⊎ ((m : Message) × (ms : List Message) × xs ≡ m ∷ ms)
List-cases [] = inl refl
List-cases (m ∷ ms) = inr (m, ms, refl)

messages_of-append :
    (session_id role content : String) (memory : Memory)
    → messages_of session_id (append session_id role content memory)
      ≡ messages_of session_id memory ++ record { role = role; content = content } ∷ []
unfolding messages_of append
messages_of-append session_id role content memory = grind (arith, dict_laws)

get_history-messages :
    (cfg : Settings) (session_id : String) (limit max_chars : Option ℕ) (memory : Memory)
    (messages : List Message)
    → messages_of session_id memory ≡ messages
    → messages ≢ []
    → get_history cfg session_id limit max_chars memory ≡ apply_limits cfg messages limit max_chars
unfolding get_history
get_history-messages cfg session_id limit max_chars memory [] e ne = absurd (ne refl)
get_history-messages cfg session_id limit max_chars memory (m ∷ ms) e ne = rw (e, get_history) refl

-- What `get_history` returns right after `append` ends with the appended message, whatever the limits of the call.
pub get_history-append :
    (cfg : Settings) (session_id role content : String) (limit max_chars : Option ℕ)
    (memory : Memory)
    → (earlier : List Message) × get_history cfg session_id limit max_chars
          (append session_id role content memory)
        ≡ earlier ++ record { role = role; content = content } ∷ []
get_history-append cfg session_id role content limit max_chars memory =
    let message : Message = record { role = role; content = content } in
    let before = messages_of session_id memory in
    let now = before ++ message ∷ [] in
    let ne = append-cons-nonempty before message in
    let ((older, older_eq), kept_one) = limited-suffix cfg limit max_chars now ne in
    let (earlier, ends) =
      ends_with older (apply_limits cfg now limit max_chars) before message older_eq kept_one in
    (
      earlier,
      get_history-messages cfg session_id limit max_chars (append session_id role content memory)
            now (messages_of-append session_id role content memory) ne
          ∙ ends,
    )

-- `append` and `clear` of one session leave what every other session reads back as it was, and a cleared session reads back nothing.
pub sessions_apart :
    (cfg : Settings) (session_id other role content : String) (limit max_chars : Option ℕ)
    (memory : Memory)
    → other ≢ session_id
    → (get_history cfg other limit max_chars (append session_id role content memory)
        ≡ get_history cfg other limit max_chars memory)
      × (get_history cfg other limit max_chars (clear session_id memory)
          ≡ get_history cfg other limit max_chars memory)
      × (get_history cfg session_id limit max_chars (clear session_id memory) ≡ [])
unfolding get_history append clear messages_of
sessions_apart cfg session_id other role content limit max_chars memory ne =
    (grind (arith, dict_laws), grind (arith, dict_laws), grind (arith, dict_laws))

-- With a limit above 0 `get_history` returns at most that many messages.
pub length-get_history :
    (cfg : Settings) (session_id : String) (n : ℕ) (max_chars : Option ℕ) (memory : Memory)
    → length (get_history cfg session_id (some (suc n)) max_chars memory) ≤ suc n
unfolding get_history
length-get_history cfg session_id n max_chars memory =
    elim (List-cases (messages_of session_id memory)) [
      | inl e ↦ rw (e, get_history) (omega arith)
      | inr (m, ms, e) ↦ rw (e, get_history) (length-limited cfg n max_chars (m ∷ ms) cons≢nil)
    ]
