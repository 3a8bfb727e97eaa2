-- ===== src/Memory/Trim.antt =====
-- `_trim_by_chars`: the longest run of recent messages within the budget, and never none of them.
use enterprise_llm_assistant.Prelude.{
  ℕ, ◌+◌, ◌≤◌, ◌<◌, List, [], ◌∷◌, ◌++◌, ◌≡◌, ◌≢◌, refl, sym, arith, ◌⊎◌, inl, inr, ◌∙◌, ap,
  reverse,
}
use enterprise_llm_assistant.Prelude.{if◌then◌else◌, ltb, length, Bool-cases}
use native.Mathlib.Nat.{zero-add}
use mathlib.Core.List.{append_assoc, append-nil, reverse-append, reverse-reverse, cons≢nil}
use enterprise_llm_assistant.Memory.{Message, size, select_recent, trim_by_chars}

abbrev pub chars : List Message → ℕ
chars [] = 0
chars (m ∷ ms) = size m + chars ms

chars-append : (xs ys : List Message) → chars (xs ++ ys) ≡ chars xs + chars ys
chars-append [] ys = omega arith
chars-append (x ∷ xs) ys = omega (arith, chars-append xs ys)

chars-reverse : (xs : List Message) → chars (reverse xs) ≡ chars xs
chars-reverse [] = refl
chars-reverse (x ∷ xs) =
    ap chars (reverse-append (x ∷ []) xs)
    ∙ chars-append (reverse xs) (x ∷ [])
    ∙ omega (arith, chars-reverse xs)

-- What the loop adds to messages that it has selected already, and what it leaves.
fitting : ℕ → ℕ → List Message → List Message × List Message
fitting max_chars total [] = ([], [])
fitting max_chars total (m ∷ rest) =
    let (more, left) = fitting max_chars (total + size m) rest in
    if ltb max_chars (total + size m) then ([], m ∷ rest) else (m ∷ more, left)

select_recent-fitting :
    (max_chars total : ℕ) (rest : List Message) (m : Message) (selected : List Message)
    → select_recent max_chars rest (m ∷ selected) total
      ≡ m ∷ selected ++ (fitting max_chars total rest).0
unfolding select_recent fitting
select_recent-fitting max_chars total [] m selected =
    ap (λ (xs : List Message). m ∷ xs) (sym (append-nil selected))
select_recent-fitting max_chars total (x ∷ rest) m selected =
    elim (Bool-cases (ltb max_chars (total + size x))) [
      | inl e ↦
          rw (e, select_recent) (ap (λ (xs : List Message). m ∷ xs) (sym (append-nil selected)))
      | inr e ↦
          rw (e, select_recent)
            (select_recent-fitting max_chars (total + size x) rest m (selected ++ x ∷ [])
              ∙ ap (λ (xs : List Message). m ∷ xs) (append_assoc selected (x ∷ []) _))
    ]

fitting-append :
    (max_chars total : ℕ) (rest : List Message)
    → (fitting max_chars total rest).0 ++ (fitting max_chars total rest).1 ≡ rest
unfolding fitting
fitting-append max_chars total [] = refl
fitting-append max_chars total (m ∷ rest) =
    ground (arith, fitting-append max_chars (total + size m) rest)

fitting-fits :
    (max_chars total : ℕ) (rest : List Message)
    → ((fitting max_chars total rest).0 ≡ [])
      ⊎ (total + chars (fitting max_chars total rest).0 ≤ max_chars)
unfolding fitting
fitting-fits max_chars total [] = inl refl
fitting-fits max_chars total (m ∷ rest) =
    ground (arith, fitting-fits max_chars (total + size m) rest)

-- The next message that is left would not fit.
abbrev Overflows : ℕ → ℕ → List Message → Type 0
Overflows max_chars total [] = Unit
Overflows max_chars total (m ∷ _) = max_chars < total + size m

fitting-Overflows :
    (max_chars total : ℕ) (rest : List Message) (used : ℕ)
    → used ≡ total + chars (fitting max_chars total rest).0
    → Overflows max_chars used (fitting max_chars total rest).1
unfolding fitting
fitting-Overflows max_chars total [] used e = tt
fitting-Overflows max_chars total (m ∷ rest) used e =
    ground (arith, fitting-Overflows max_chars (total + size m) rest used)

-- The messages that are kept end the conversation, and are all of it that fits.
pub record IsRecentRun (max_chars : ℕ) (messages kept : List Message) : Type 0 where
  pub older : List Message
  pub splits : messages ≡ older ++ kept
  pub keeps_one : kept ≢ []
  pub fits : (length kept ≡ 1) ⊎ (chars kept ≤ max_chars)
  pub overflows : Overflows max_chars (chars kept) (reverse older)

fitted-IsRecentRun :
    (max_chars : ℕ) (m : Message) (rest messages : List Message)
    → messages ≡ reverse (m ∷ rest)
    → IsRecentRun max_chars messages (reverse (m ∷ (fitting max_chars (size m) rest).0))
fitted-IsRecentRun max_chars m rest messages e =
    let (more, left) = fitting max_chars (size m) rest in
    record {
      older = reverse left;
      splits =
          e
          ∙ ap (λ (xs : List Message). reverse (m ∷ xs))
              (sym (fitting-append max_chars (size m) rest))
          ∙ reverse-append (m ∷ more) left;
      keeps_one = λ p. cons≢nil (sym (reverse-reverse (m ∷ more)) ∙ ap reverse p);
      fits = elim (fitting-fits max_chars (size m) rest) [
        | inl none_more ↦ inl (rw none_more refl)
        | inr below ↦ inr (omega (arith, chars-reverse (m ∷ more), below))
      ];
      overflows = rw (reverse-reverse left) (
          fitting-Overflows max_chars (size m) rest (chars (reverse (m ∷ more)))
            (chars-reverse (m ∷ more)));
    }

reversed-IsRecentRun :
    (max_chars : ℕ) (recent messages : List Message)
    → messages ≡ reverse recent
    → recent ≢ []
    → IsRecentRun max_chars messages (reverse (select_recent max_chars recent [] 0))
unfolding select_recent
reversed-IsRecentRun max_chars [] messages e ne = absurd (ne refl)
reversed-IsRecentRun max_chars (m ∷ rest) messages e _ =
    rw (zero-add (size m), select_recent-fitting max_chars (size m) rest m [])
      (fitted-IsRecentRun max_chars m rest messages e)

-- `_trim_by_chars` of a conversation that is not empty returns the end of it, which holds at least one message; either it holds one alone or its contents' lengths add up to at most the budget; and the message before it, if there is one, would go past the budget.
pub trim_by_chars-IsRecentRun :
    (messages : List Message) (max_chars : ℕ)
    → messages ≢ []
    → IsRecentRun max_chars messages (trim_by_chars messages max_chars)
unfolding trim_by_chars
trim_by_chars-IsRecentRun messages max_chars ne =
    reversed-IsRecentRun max_chars (reverse messages) messages (sym (reverse-reverse messages))
      (λ p. ne (sym (reverse-reverse messages) ∙ ap reverse p))
