-- ===== src/Ingestion/Splitter/Coverage.antt =====
-- `RecursiveTextSplitter.split`: the chunks have the right length and hold the whole text.
use native.Mathlib.Nat.{zero-add, suc-add}
use enterprise_llm_assistant.Core.Settings.{Settings, or_default}
use enterprise_llm_assistant.Prelude.{
  ℕ, zero, suc, ◌+◌, ◌-◌, ◌≤◌, ◌<◌, Option, List, [], ◌∷◌, ◌++◌, ◌≡◌, refl, sym, ap, ◌∙◌, arith,
  inl, inr,
}
use enterprise_llm_assistant.Prelude.{
  if◌then◌else◌, ltb, eqb, length, take, drop, All, take-append-drop, length-drop, Bool-cases,
}
use enterprise_llm_assistant.Ingestion.Splitter.{slice, end_of, next_start, split_from, split}

-- What two neighbours share: the configured overlap, but never a whole chunk.
abbrev pub shared : ℕ → ℕ → ℕ
shared chunk_size chunk_overlap =
    if ltb chunk_overlap chunk_size then chunk_overlap else chunk_size - 1

next_start-shared :
    (chunk_size chunk_overlap start end : ℕ)
    → 0 < chunk_size
    → end ≡ start + chunk_size
    → next_start chunk_overlap start end + shared chunk_size chunk_overlap ≡ end
next_start-shared chunk_size chunk_overlap start end positive e = ground arith

start-next_start : (chunk_overlap start end : ℕ) → start < next_start chunk_overlap start end
start-next_start chunk_overlap start end = ground arith

add_sub_of_le : (m n : ℕ) → m ≤ n → m + (n - m) ≡ n
add_sub_of_le m n h = omega arith

module _ {A : Type 0} where
  -- The text that chunks come from, when each one starts with the last `overlap` characters of the one before it.
  abbrev pub rejoin : ℕ → List (List A) → List A
  rejoin overlap [] = []
  rejoin overlap (chunk ∷ chunks) = chunk ++ drop overlap (rejoin overlap chunks)

  drop-nil : (n : ℕ) → drop {A = A} n [] ≡ []
  drop-nil zero = refl
  drop-nil (suc n) = refl

  drop-drop : (m n : ℕ) (xs : List A) → drop m (drop n xs) ≡ drop (n + m) xs
  drop-drop m zero xs = rw (zero-add m) refl
  drop-drop m (suc n) [] = rw (drop-nil m, drop-nil (suc n + m)) refl
  drop-drop m (suc n) (x ∷ xs) = rw (suc-add n m) (drop-drop m n xs)

  drop-past : (n : ℕ) (xs : List A) → length xs ≤ n → drop n xs ≡ []
  drop-past n [] h = drop-nil n
  drop-past zero (x ∷ xs) h = absurd (omega (arith, h))
  drop-past (suc n) (x ∷ xs) h = drop-past n xs (omega (arith, h))

  length-take : (n : ℕ) (xs : List A) → n ≤ length xs → length (take n xs) ≡ n
  length-take zero xs h = refl
  length-take (suc n) [] h = omega (arith, h)
  length-take (suc n) (x ∷ xs) h = omega (arith, length-take n xs (omega (arith, h)))

  slice-rest :
      (text : List A) (start end : ℕ)
      → start ≤ end
      → slice text start end ++ drop end text ≡ drop start text
  slice-rest text start end h =
      rw
        (sym (
          drop-drop (end - start) start text
          ∙ ap (λ (n : ℕ). drop n text) (add_sub_of_le start end h)))
        (take-append-drop (end - start) (drop start text))

  -- What one round adds to the rounds after it.
  rejoin-round :
      (text : List A) (start end next overlap : ℕ) (chunks : List (List A))
      → start ≤ end
      → next + overlap ≡ end
      → rejoin overlap chunks ≡ drop next text
      → slice text start end ++ drop overlap (rejoin overlap chunks) ≡ drop start text
  rejoin-round text start end next overlap chunks h e ih =
      ap (λ (xs : List A). slice text start end ++ xs)
        (ap (λ (xs : List A). drop overlap xs) ih
          ∙ drop-drop overlap next text
          ∙ ap (λ (n : ℕ). drop n text) e)
      ∙ slice-rest text start end h

  rejoin-last :
      (text : List A) (start overlap : ℕ)
      → start ≤ length text
      → slice text start (length text) ++ drop overlap [] ≡ drop start text
  rejoin-last text start overlap h =
      ap (λ (xs : List A). slice text start (length text) ++ xs)
        (drop-nil overlap ∙ sym (drop-past (length text) text (omega arith)))
      ∙ slice-rest text start (length text) h

  rejoin-split_from :
      (fuel chunk_size chunk_overlap : ℕ) (text : List A) (start : ℕ)
      → 0 < chunk_size
      → length text ≤ start + fuel
      → rejoin
          (shared chunk_size chunk_overlap)
          (split_from fuel chunk_size chunk_overlap text start)
        ≡ drop start text
  unfolding split_from
  rejoin-split_from zero chunk_size chunk_overlap text start positive enough =
      sym (drop-past start text (omega (arith, enough)))
  rejoin-split_from (suc fuel) chunk_size chunk_overlap text start positive enough =
      let next = next_start chunk_overlap start (end_of chunk_size text start) in
      let overlap = shared chunk_size chunk_overlap in
      let rest = split_from fuel chunk_size chunk_overlap text next in
      let ih = rejoin-split_from fuel chunk_size chunk_overlap text next positive (
        omega
          (arith, enough, start-next_start chunk_overlap start (end_of chunk_size text start))) in
      elim (Bool-cases (ltb start (length text))) [
        | inl inside ↦ elim (Bool-cases (eqb (end_of chunk_size text start) (length text))) [
          | inl last ↦ ground (arith, rejoin-last text start overlap (ground arith))
          | inr more ↦ ground (
            arith,
            rejoin-round text start (end_of chunk_size text start) next overlap rest (ground arith)
                (next_start-shared chunk_size chunk_overlap start (end_of chunk_size text start)
                  positive (ground arith))
                ih,
          )
        ]
        | inr past ↦ ground (arith, drop-past start text (ground arith))
      ]

  -- The chunks of a text hold the whole text in order: with a chunk size above 0, what they hold when each one after the first loses the characters it shares with the one before (the overlap, or all but one of a chunk when the overlap is not below the chunk size) is the text.
  pub rejoin-split :
      (cfg : Settings) (chunk_size chunk_overlap : Option ℕ) (text : List A)
      → 0 < or_default chunk_size cfg.chunk_size
      → rejoin
          (shared
            (or_default chunk_size cfg.chunk_size)
            (or_default chunk_overlap cfg.chunk_overlap))
          (split cfg chunk_size chunk_overlap text)
        ≡ text
  unfolding split
  rejoin-split cfg chunk_size chunk_overlap text positive =
      rejoin-split_from (length text) _ _ text 0 positive (omega arith)

  -- A chunk has at least one character and at most `chunk_size`.
  abbrev pub IsChunk : ℕ → List A → Type 0
  IsChunk chunk_size chunk = (0 < length chunk) × (length chunk ≤ chunk_size)

  slice-IsChunk :
      (chunk_size : ℕ) (text : List A) (start : ℕ)
      → 0 < chunk_size
      → start < length text
      → IsChunk chunk_size (slice text start (end_of chunk_size text start))
  slice-IsChunk chunk_size text start positive inside =
      let end = end_of chunk_size text start in
      let long =
        length-take (end - start) (drop start text) (ground (arith, length-drop start text)) in
      (ground (arith, long), ground (arith, long))

  split_from-IsChunk :
      (fuel chunk_size chunk_overlap : ℕ) (text : List A) (start : ℕ)
      → 0 < chunk_size
      → All (IsChunk chunk_size) (split_from fuel chunk_size chunk_overlap text start)
  unfolding split_from
  split_from-IsChunk zero chunk_size chunk_overlap text start positive = tt
  split_from-IsChunk (suc fuel) chunk_size chunk_overlap text start positive = ground (
    arith,
    slice-IsChunk chunk_size text start positive,
    split_from-IsChunk fuel chunk_size chunk_overlap text
        (next_start chunk_overlap start (end_of chunk_size text start)) positive,
  )

  -- With a chunk size above 0, every chunk of a text has at least one character and at most the chunk size.
  pub split-IsChunk :
      (cfg : Settings) (chunk_size chunk_overlap : Option ℕ) (text : List A)
      → 0 < or_default chunk_size cfg.chunk_size
      → All
          (IsChunk (or_default chunk_size cfg.chunk_size))
          (split cfg chunk_size chunk_overlap text)
  unfolding split
  split-IsChunk cfg chunk_size chunk_overlap text positive =
      split_from-IsChunk (length text) _ _ text 0 positive
