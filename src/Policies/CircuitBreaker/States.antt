-- ===== src/Policies/CircuitBreaker/States.antt =====
-- The states of `CircuitBreaker`: closed with fewer failures than the threshold, or open.
use enterprise_llm_assistant.Core.Exceptions.{Exception, circuit_breaker_open}
use enterprise_llm_assistant.Prelude.{
  ℕ, suc, ◌+◌, ◌≤◌, ◌<◌, Option, none, some, List, [], ◌∷◌, ◌≡◌, arith,
}
use enterprise_llm_assistant.Prelude.{length}
use enterprise_llm_assistant.Prelude.Exec.{raised, Exec}
use enterprise_llm_assistant.Policies.CircuitBreaker.{CircuitBreaker, Guarded, execute}

-- Closed below the threshold, or open at it.
abbrev pub Counts : ℕ → ℕ → Option ℕ → Type 0
Counts threshold count none = count < threshold
Counts threshold count (some _) = threshold ≤ count

pub record IsSound (c : CircuitBreaker) : Type 0 where
  pub positive : 0 < c.failure_threshold
  pub counted : Counts c.failure_threshold c.failure_count c.opened_at

module _ {S A : Type 0} (operation : Exec S A) where
  -- A breaker that has a threshold above 0, and is either closed with fewer failures than the threshold or
  -- open with at least as many, is so after any call, whatever the operation does.
  pub execute-IsSound :
      (now failed_at : ℕ) (g : Guarded S)
      → IsSound g.breaker
      → IsSound (execute now failed_at operation g).1.breaker
  unfolding execute
  execute-IsSound now failed_at g h = record { positive = ground arith; counted = ground arith }

  -- A breaker that was opened less than its reset timeout ago answers `CircuitBreakerOpenException` without
  -- a call: the operation's state and the breaker stay as they were.
  pub open_rejects :
      (now failed_at opened : ℕ) (g : Guarded S)
      → g.breaker.opened_at ≡ some opened
      → now < opened + g.breaker.reset_timeout
      → execute now failed_at operation g
        ≡ (raised (circuit_breaker_open "Circuit breaker is open"), g)
  unfolding execute
  open_rejects now failed_at opened g h soon = ground arith

  -- A breaker whose reset timeout has passed since it opened makes the call as a closed one without
  -- failures does.
  pub reset_after_timeout :
      (now failed_at opened : ℕ) (g : Guarded S)
      → g.breaker.opened_at ≡ some opened
      → opened + g.breaker.reset_timeout ≤ now
      → execute now failed_at operation g
        ≡ execute now failed_at operation
            (record g { breaker = record g.breaker { failure_count = 0; opened_at = none } })
  unfolding execute
  reset_after_timeout now failed_at opened g h late = ground arith

  -- Calls at the given pairs of readings; the answers are dropped.
  pub calls : List (ℕ × ℕ) → Guarded S → Guarded S
  calls [] g = g
  calls ((now, failed_at) ∷ rest) g = calls rest (execute now failed_at operation g).1

  abbrev pub IsFailing : Type 0
  IsFailing = (s : S) → (e : Exception) × ((operation s).0 ≡ raised e)

  pub record IsClosed (count threshold timeout : ℕ) (c : CircuitBreaker) : Type 0 where
    pub closed : c.opened_at ≡ none
    pub counted : c.failure_count ≡ count
    pub threshold_is : c.failure_threshold ≡ threshold
    pub timeout_is : c.reset_timeout ≡ timeout

  failing_call :
      (now failed_at count threshold timeout : ℕ) (g : Guarded S)
      → IsFailing
      → count + 1 < threshold
      → IsClosed count threshold timeout g.breaker
      → IsClosed (count + 1) threshold timeout (execute now failed_at operation g).1.breaker
  unfolding execute
  failing_call now failed_at count threshold timeout g failing below h =
      let (e, raises) = failing g.state in
      record {
        closed = ground arith;
        counted = ground arith;
        threshold_is = ground arith;
        timeout_is = ground arith;
      }

  failing_calls :
      (times : List (ℕ × ℕ)) (count threshold timeout : ℕ) (g : Guarded S)
      → IsFailing
      → count + length times < threshold
      → IsClosed count threshold timeout g.breaker
      → IsClosed (count + length times) threshold timeout (calls times g).breaker
  unfolding calls
  failing_calls [] count threshold timeout g failing below h =
      let e : count + 0 ≡ count = omega arith in rw e h
  failing_calls ((now, failed_at) ∷ times) count threshold timeout g failing below h =
      let e : count + suc (length times) ≡ count + 1 + length times = omega arith in
      rw e (
        failing_calls times (count + 1) threshold timeout (execute now failed_at operation g).1
          failing (omega arith)
          (failing_call now failed_at count threshold timeout g failing (omega arith) h))

  last_failing_call :
      (now failed_at count threshold timeout : ℕ) (g : Guarded S)
      → IsFailing
      → count + 1 ≡ threshold
      → IsClosed count threshold timeout g.breaker
      → ((execute now failed_at operation g).1.breaker.opened_at ≡ some failed_at)
        × ((execute now failed_at operation g).1.breaker.reset_timeout ≡ timeout)
  unfolding execute
  last_failing_call now failed_at count threshold timeout g failing reached h =
      let (e, raises) = failing g.state in (ground arith, ground arith)

  -- From a closed breaker without failures, as many calls as the threshold of an operation that always
  -- raises open it: until the reset timeout has passed since the last failure, a call is answered
  -- `CircuitBreakerOpenException` and neither the breaker nor the operation's state changes.
  pub opens_at_threshold :
      (times : List (ℕ × ℕ)) (now failed_at later later_failed threshold timeout : ℕ)
      (g : Guarded S)
      → IsFailing
      → suc (length times) ≡ threshold
      → IsClosed 0 threshold timeout g.breaker
      → later < failed_at + timeout
      → let opened = (execute now failed_at operation (calls times g)).1 in
        execute later later_failed operation opened
        ≡ (raised (circuit_breaker_open "Circuit breaker is open"), opened)
  opens_at_threshold times now failed_at later later_failed threshold timeout g failing reached h
        soon =
      let closed = failing_calls times 0 threshold timeout g failing (omega arith) h in
      let (opened, kept) =
        last_failing_call now failed_at (0 + length times) threshold timeout (calls times g) failing
          (omega arith) closed in
      open_rejects later later_failed failed_at (execute now failed_at operation (calls times g)).1
        opened (rw kept soon)
