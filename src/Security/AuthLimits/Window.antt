-- ===== src/Security/AuthLimits/Window.antt =====
-- The bucket of a rate limiter against the full history of the requests that it let in
-- (`AuthRateLimiter.check`, `RateLimitMiddleware.dispatch`).
use enterprise_llm_assistant.Prelude.{
  ℕ, ◌-◌, ◌≤◌, ◌<◌, Bool, true, List, [], ◌∷◌, ◌++◌, ◌≡◌, refl, ◌∙◌, arith, ◌&&◌, inl, inr,
}
use enterprise_llm_assistant.Prelude.{
  if◌then◌else◌, ltb, leb, length, select, All, select-append, length-append, Bool-cases,
}
use enterprise_llm_assistant.Security.AuthLimits.{drop_stale, admit}

-- Not yet out of the window.
abbrev pub fresh : ℕ → ℕ → ℕ → Bool
fresh window now t = leb (now - t) window

-- At or before `now`, and not yet out of the window.
abbrev pub in_window : ℕ → ℕ → ℕ → Bool
in_window window now t = leb t now && leb (now - t) window

abbrev pub IsSorted : List ℕ → Type 0
IsSorted [] = Unit
IsSorted (x ∷ xs) = All (λ y. x ≤ y) xs × IsSorted xs

All-le_trans : (x y : ℕ) (xs : List ℕ) → x ≤ y → All (λ z. z ≤ x) xs → All (λ z. z ≤ y) xs
All-le_trans x y [] h a = tt
All-le_trans x y (z ∷ xs) h a = (omega arith, All-le_trans x y xs h a.1)

All-append {ℓ} : (P : ℕ → Type ℓ) (xs : List ℕ) (x : ℕ) → All P xs → P x → All P (xs ++ x ∷ [])
All-append P [] x a p = (p, tt)
All-append P (y ∷ xs) x a p = (a.0, All-append P xs x a.1 p)

IsSorted-append :
    (xs : List ℕ) (now : ℕ) → IsSorted xs → All (λ z. z ≤ now) xs → IsSorted (xs ++ now ∷ [])
IsSorted-append [] now s a = (tt, tt)
IsSorted-append (x ∷ xs) now s a =
    (All-append (λ y. x ≤ y) xs now s.0 a.0, IsSorted-append xs now s.1 a.1)

-- The history after a request at `now`.
abbrev pub noted : Bool → ℕ → List ℕ → List ℕ
noted admitted now history = if admitted then history ++ now ∷ [] else history

module _ (window : ℕ) where
  select-All :
      (now t : ℕ) (xs : List ℕ)
      → All (λ y. t ≤ y) xs
      → fresh window now t ≡ true
      → select (fresh window now) xs ≡ xs
  select-All now t [] a h = refl
  select-All now t (x ∷ xs) a h = ground (arith, select-All now t xs a.1 h)

  -- On a sorted list the loop that stops at the first fresh time is the filter.
  drop_stale-select :
      (now : ℕ) (xs : List ℕ)
      → IsSorted xs
      → drop_stale window now xs ≡ select (fresh window now) xs
  unfolding drop_stale
  drop_stale-select now [] s = refl
  drop_stale-select now (x ∷ xs) s =
      ground (arith, drop_stale-select now xs s.1, select-All now x xs s.0)

  select-select :
      (now later : ℕ) (xs : List ℕ)
      → now ≤ later
      → select (fresh window later) (select (fresh window now) xs) ≡ select (fresh window later) xs
  select-select now later [] h = refl
  select-select now later (x ∷ xs) h = ground (arith, select-select now later xs h)

  All-select {ℓ} :
      (P : ℕ → Type ℓ) (test : ℕ → Bool) (xs : List ℕ) → All P xs → All P (select test xs)
  All-select P test [] a = tt
  All-select P test (x ∷ xs) a = elim (Bool-cases (test x)) [
    | inl e ↦ rw e (a.0, All-select P test xs a.1)
    | inr e ↦ rw e (All-select P test xs a.1)
  ]

  IsSorted-select : (test : ℕ → Bool) (xs : List ℕ) → IsSorted xs → IsSorted (select test xs)
  IsSorted-select test [] s = tt
  IsSorted-select test (x ∷ xs) s = elim (Bool-cases (test x)) [
    | inl e ↦ rw e (All-select (λ y. x ≤ y) test xs s.0, IsSorted-select test xs s.1)
    | inr e ↦ rw e (IsSorted-select test xs s.1)
  ]

  select-in_window :
      (now : ℕ) (xs : List ℕ)
      → All (λ z. z ≤ now) xs
      → select (in_window window now) xs ≡ select (fresh window now) xs
  select-in_window now [] a = refl
  select-in_window now (x ∷ xs) a = ground (arith, select-in_window now xs a.1)

  -- The bucket holds the part of the history that was fresh at some time before.
  pub record Tracks (last : ℕ) (bucket history : List ℕ) : Type 0 where
    pub since : ℕ
    pub since_le : since ≤ last
    pub kept : bucket ≡ select (fresh window since) history
    pub past : All (λ z. z ≤ last) history
    pub sorted : IsSorted history

  pub Tracks-nil : (last : ℕ) → Tracks last [] []
  Tracks-nil last = record {
    since = last;
    since_le = omega arith;
    kept = refl;
    past = tt;
    sorted = tt;
  }

  pub Tracks-later :
      {last now : ℕ} {bucket history : List ℕ}
      → last ≤ now
      → Tracks last bucket history
      → Tracks now bucket history
  Tracks-later {last} {now} {history} h t = record {
    since = t.since;
    since_le = omega arith;
    kept = t.kept;
    past = All-le_trans last now history h t.past;
    sorted = t.sorted;
  }

  drop_stale-Tracks :
      {last : ℕ} {bucket history : List ℕ} (now : ℕ)
      → last ≤ now
      → Tracks last bucket history
      → drop_stale window now bucket ≡ select (fresh window now) history
  drop_stale-Tracks {history} now h t = rw t.kept (
      drop_stale-select now (select (fresh window t.since) history)
        (IsSorted-select (fresh window t.since) history t.sorted)
      ∙ select-select t.since now history (omega arith))

  -- A request is let in exactly if fewer than `limit` were within the window.
  pub admit-window :
      {last : ℕ} {bucket history : List ℕ} (limit now : ℕ)
      → last ≤ now
      → Tracks last bucket history
      → (admit limit window now bucket).0
        ≡ ltb (length (select (in_window window now) history)) limit
  unfolding admit
  admit-window {last} {history} limit now h t =
      rw
        (
          drop_stale-Tracks now h t,
          select-in_window now history (All-le_trans last now history h t.past),
        )
        (ground arith)

  select-fresh_now :
      (now : ℕ) (xs : List ℕ)
      → select (fresh window now) (xs ++ now ∷ []) ≡ select (fresh window now) xs ++ now ∷ []
  select-fresh_now now xs = rw select-append (ground arith)

  pub admit-Tracks :
      {last : ℕ} {bucket history : List ℕ} (limit now : ℕ)
      → last ≤ now
      → Tracks last bucket history
      → Tracks now
          (admit limit window now bucket).1
          (noted (admit limit window now bucket).0 now history)
  unfolding admit
  admit-Tracks {last} {bucket} {history} limit now h t =
      let past : All (λ z. z ≤ now) history = All-le_trans last now history h t.past in
      elim (Bool-cases (leb limit (length (drop_stale window now bucket)))) [
        | inl e ↦ rw e (record {
          since = now;
          since_le = omega arith;
          kept = drop_stale-Tracks now h t;
          past = past;
          sorted = t.sorted;
        })
        | inr e ↦ rw e (record {
          since = now;
          since_le = omega arith;
          kept = rw (drop_stale-Tracks now h t, select-fresh_now now history);
          past = All-append (λ z. z ≤ now) history now past (omega arith);
          sorted = IsSorted-append history now t.sorted past;
        })
      ]

  abbrev pub IsBounded : ℕ → List ℕ → Type 0
  IsBounded limit history = (at : ℕ) → length (select (in_window window at) history) ≤ limit

  length-select_later :
      (now later : ℕ) (xs : List ℕ)
      → now ≤ later
      → All (λ z. z ≤ now) xs
      → length (select (in_window window later) xs) ≤ length (select (in_window window now) xs)
  length-select_later now later [] h a = omega arith
  length-select_later now later (x ∷ xs) h a =
      ground (arith, length-select_later now later xs h a.1)

  length-select_noted :
      (limit now at : ℕ) (xs : List ℕ)
      → All (λ z. z ≤ now) xs
      → length (select (in_window window now) xs) < limit
      → length (select (in_window window at) xs) ≤ limit
      → length (select (in_window window at) (xs ++ now ∷ [])) ≤ limit
  length-select_noted limit now at xs a h b = rw select-append (
      ground (
        arith,
        length-append (select (in_window window at) xs) [],
        length-append (select (in_window window at) xs) (now ∷ []),
        λ (p : now ≤ at). length-select_later now at xs p a,
      ))

  -- Letting `now` in keeps the bound on every window, before `now` and after.
  pub noted-IsBounded :
      {last : ℕ} {bucket history : List ℕ} (limit now : ℕ)
      → last ≤ now
      → Tracks last bucket history
      → IsBounded limit history
      → IsBounded limit (noted (admit limit window now bucket).0 now history)
  noted-IsBounded {last} {bucket} {history} limit now h t b at =
      rw (admit-window limit now h t)
        (elim (Bool-cases (ltb (length (select (in_window window now) history)) limit)) [
          | inl e ↦ rw e (
              length-select_noted limit now at history (All-le_trans last now history h t.past)
                (ground arith) (b at))
          | inr e ↦ rw e (b at)
        ])
