-- ===== src/Policies/Retry/Attempts.antt =====
-- How often `RetryPolicy.execute` calls its operation, what it answers, and how long it waits.
use enterprise_llm_assistant.Core.Exceptions.{Exception}
use enterprise_llm_assistant.Prelude.{
  ℕ, zero, suc, ◌+◌, ◌*◌, ◌<◌, false, Option, none, some, List, [], ◌∷◌, ◌++◌, ◌≡◌, arith, ◌∙◌,
}
use enterprise_llm_assistant.Prelude.{eqb}
use enterprise_llm_assistant.Prelude.Exec.{ok, raised, Exec}
use enterprise_llm_assistant.Policies.Retry.{RetryPolicy, Waiting, attempt_from, execute}
use mathlib.Core.List.{append_assoc, append-nil}

-- The operation raises `n` times in a row, from one state to another.
pub data Fails {S A : Type 0} (operation : Exec S A) : ℕ → S → S → Type 0 where
  never : {s : S} → Fails operation zero s s
  again :
      {n : ℕ} {s t u : S} (e : Exception)
      → operation s ≡ (raised e, t)
      → Fails operation n t u
      → Fails operation (suc n) s u

-- The waits before the attempts `attempt + 1` and on, `n` of them.
abbrev pub delays : ℕ → ℕ → ℕ → List ℕ
delays backoff attempt zero = []
delays backoff attempt (suc n) = backoff * attempt ∷ delays backoff (suc attempt) n

module _ {S A : Type 0} (p : RetryPolicy) (operation : Exec S A) where
  abbrev pub starting : S → Waiting S
  starting s = record { state = s; slept = [] }

  next_attempt :
      {s t : S} (rounds attempt : ℕ) (last : Option Exception) (slept : List ℕ) (e : Exception)
      → operation s ≡ (raised e, t)
      → eqb attempt p.max_attempts ≡ false
      → attempt_from p operation (suc rounds) attempt last (record { state = s; slept = slept })
        ≡ attempt_from p operation rounds
            (suc attempt)
            (some e)
            (record { state = t; slept = slept ++ p.backoff * attempt ∷ [] })
  unfolding attempt_from
  next_attempt rounds attempt last slept e fails more = ground arith

  success_from :
      (rounds attempt : ℕ) (last : Option Exception) (slept : List ℕ) {n : ℕ} {s t u : S} {a : A}
      → Fails operation n s t
      → operation t ≡ (ok a, u)
      → n < rounds
      → attempt + rounds ≡ suc p.max_attempts
      → attempt_from p operation rounds attempt last (record { state = s; slept = slept })
        ≡ (ok a, record { state = u; slept = slept ++ delays p.backoff attempt n })
  unfolding attempt_from
  success_from zero attempt last slept f done short count = absurd (omega arith)
  success_from (suc rounds) attempt last slept never done short count =
      rw (done, attempt_from) (rw (append-nil slept) (ground arith))
  success_from (suc rounds) attempt last slept (again {n = n} {t = t} e fails f) done short count =
      let more : eqb attempt p.max_attempts ≡ false = ground arith in
      let waited : List ℕ = slept ++ p.backoff * attempt ∷ [] in
      next_attempt rounds attempt last slept e fails more
      ∙ success_from rounds (suc attempt) (some e) waited f done (omega arith) (omega arith)
      ∙ rw (append_assoc slept (p.backoff * attempt ∷ []) (delays p.backoff (suc attempt) n))

  failure_from :
      (rounds attempt : ℕ) (last : Option Exception) (slept : List ℕ) {n : ℕ} {s t u : S}
      {e : Exception}
      → Fails operation n s t
      → operation t ≡ (raised e, u)
      → suc n ≡ rounds
      → attempt + rounds ≡ suc p.max_attempts
      → attempt_from p operation rounds attempt last (record { state = s; slept = slept })
        ≡ (raised e, record { state = u; slept = slept ++ delays p.backoff attempt n })
  unfolding attempt_from
  failure_from zero attempt last slept f done short count = absurd (omega arith)
  failure_from (suc rounds) attempt last slept never done short count =
      rw (done, attempt_from) (rw (append-nil slept) (ground arith))
  failure_from (suc rounds) attempt last slept (again {n = n} e fails f) done short count =
      let more : eqb attempt p.max_attempts ≡ false = ground arith in
      let waited : List ℕ = slept ++ p.backoff * attempt ∷ [] in
      next_attempt rounds attempt last slept e fails more
      ∙ failure_from rounds (suc attempt) (some e) waited f done (omega arith) (omega arith)
      ∙ rw (append_assoc slept (p.backoff * attempt ∷ []) (delays p.backoff (suc attempt) n))

  -- If the operation raises `n` times and then returns, and `n` is below the number of attempts, the policy
  -- returns the same from the state that those `n + 1` calls leave, and has waited the backoff, twice the
  -- backoff and so on up to `n` times the backoff.
  pub execute-returns :
      {n : ℕ} {s t u : S} {a : A}
      → Fails operation n s t
      → operation t ≡ (ok a, u)
      → n < p.max_attempts
      → execute p operation (starting s)
        ≡ (ok a, record { state = u; slept = delays p.backoff 1 n })
  unfolding execute
  execute-returns f done short = success_from p.max_attempts 1 none [] f done short (omega arith)

  -- If the operation raises as often as there are attempts, the policy raises its last exception, and has
  -- waited the backoff times the number of the attempt after every attempt but the last.
  pub execute-raises :
      {n : ℕ} {s t u : S} {e : Exception}
      → Fails operation n s t
      → operation t ≡ (raised e, u)
      → suc n ≡ p.max_attempts
      → execute p operation (starting s)
        ≡ (raised e, record { state = u; slept = delays p.backoff 1 n })
  unfolding execute
  execute-raises f done last = failure_from p.max_attempts 1 none [] f done last (omega arith)

abbrev pub total : List ℕ → ℕ
total [] = 0
total (x ∷ xs) = x + total xs

total-delays_from :
    (backoff attempt n : ℕ)
    → total (delays backoff (suc attempt) n) * 2 ≡ backoff * (n * (attempt + attempt + n + 1))
total-delays_from backoff attempt zero = grind arith
total-delays_from backoff attempt (suc n) = grind (arith, total-delays_from backoff (suc attempt) n)

-- When every attempt of a policy with `n + 1` attempts raises, its waits add up to the backoff times
-- `1 + … + n`: they grow by one backoff each time.
pub total_wait :
    {S A : Type 0} (p : RetryPolicy) (operation : Exec S A) {n : ℕ} {s t u : S} {e : Exception}
    → Fails operation n s t
    → operation t ≡ (raised e, u)
    → suc n ≡ p.max_attempts
    → total (execute p operation (starting p operation s)).1.slept * 2 ≡ p.backoff * (n * (n + 1))
total_wait p operation {n} f done last =
    rw (execute-raises p operation f done last) (total-delays_from p.backoff 0 n ∙ grind arith)
