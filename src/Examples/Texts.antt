-- ===== src/Examples/Texts.antt =====
-- A short conversation, and a text of ten characters cut into chunks of four.
use enterprise_llm_assistant.Core.Settings.{defaults, or_default}
use enterprise_llm_assistant.Prelude.{ℕ, ◌<◌, String, some, List, [], ◌∷◌, ◌≡◌, refl, arith}
use enterprise_llm_assistant.Prelude.{string_eq, All}
use enterprise_llm_assistant.Memory.{Message, Memory, trim_by_chars}
use enterprise_llm_assistant.Ingestion.Splitter.{split}
use enterprise_llm_assistant.Ingestion.Splitter.Coverage.{
  rejoin, shared, IsChunk, rejoin-split, split-IsChunk,
}

abbrev said : String → Message
said content = record { role = "user"; content = content }

abbrev conversation : List Message
conversation = said "first" ∷ said "second" ∷ said "third" ∷ []

-- Eleven characters hold the last two messages.
last_two_kept : trim_by_chars conversation 11 ≡ said "second" ∷ said "third" ∷ []
unfolding trim_by_chars
last_two_kept = refl

abbrev one_memory : Memory
one_memory = ("s1", conversation) ∷ []

-- Ten characters, as numbers.
abbrev ten : List ℕ
ten = 0 ∷ 1 ∷ 2 ∷ 3 ∷ 4 ∷ 5 ∷ 6 ∷ 7 ∷ 8 ∷ 9 ∷ []

four_each :
    split defaults (some 4) (some 1) ten
    ≡ (0 ∷ 1 ∷ 2 ∷ 3 ∷ []) ∷ (3 ∷ 4 ∷ 5 ∷ 6 ∷ []) ∷ (6 ∷ 7 ∷ 8 ∷ 9 ∷ []) ∷ []
unfolding split
four_each = refl

chunk_size_positive : 0 < or_default (some 4) defaults.chunk_size
unfolding or_default
chunk_size_positive = omega arith

rejoin-split_example :
    rejoin
      (shared
        (or_default (some 4) defaults.chunk_size)
        (or_default (some 1) defaults.chunk_overlap))
      (split defaults (some 4) (some 1) ten)
    ≡ ten
rejoin-split_example = rejoin-split defaults (some 4) (some 1) ten chunk_size_positive

split-IsChunk_example :
    All (IsChunk (or_default (some 4) defaults.chunk_size)) (split defaults (some 4) (some 1) ten)
split-IsChunk_example = split-IsChunk defaults (some 4) (some 1) ten chunk_size_positive
