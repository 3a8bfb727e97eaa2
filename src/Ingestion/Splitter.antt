-- ===== src/Ingestion/Splitter.antt =====
-- app/services/ingestion_service.py, `RecursiveTextSplitter`, over the characters of the text.
pub mod Coverage
use enterprise_llm_assistant.Core.Settings.{Settings, or_default}
use enterprise_llm_assistant.Prelude.{
  ℕ, zero, suc, ◌+◌, ◌-◌, Bool, true, false, Option, List, [], ◌∷◌,
}
use enterprise_llm_assistant.Prelude.{if◌then◌else◌, ltb, eqb, length, take, drop}

-- `max(end - self._chunk_overlap, start + 1)`: stopping at 0 does not change it.
abbrev pub next_start : ℕ → ℕ → ℕ → ℕ
next_start chunk_overlap start end =
    if ltb (end - chunk_overlap) (start + 1) then start + 1 else end - chunk_overlap

module _ {A : Type 0} where
  -- `text[start:end]`
  abbrev pub slice : List A → ℕ → ℕ → List A
  slice text start end = take (end - start) (drop start text)

  -- `min(start + self._chunk_size, text_length)`
  abbrev pub end_of : ℕ → List A → ℕ → ℕ
  end_of chunk_size text start =
      if ltb (length text) (start + chunk_size) then length text else start + chunk_size

  -- The loop of `split`, from `start` on, for at most so many rounds.
  unfoldable pub split_from : ℕ → ℕ → ℕ → List A → ℕ → List (List A)
  split_from zero chunk_size chunk_overlap text start = []
  split_from (suc fuel) chunk_size chunk_overlap text start =
      let end = end_of chunk_size text start in
      let rest =
        split_from fuel chunk_size chunk_overlap text (next_start chunk_overlap start end) in
      if ltb start (length text)
      then slice text start end ∷ (if eqb end (length text) then [] else rest)
      else []

  -- `start` grows in every round, so there are no more rounds than characters.
  unfoldable pub split : Settings → Option ℕ → Option ℕ → List A → List (List A)
  unfolding split_from or_default
  split cfg chunk_size chunk_overlap text =
      split_from (length text) (or_default chunk_size cfg.chunk_size)
        (or_default chunk_overlap cfg.chunk_overlap) text 0
