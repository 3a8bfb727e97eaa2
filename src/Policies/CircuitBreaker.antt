-- ===== src/Policies/CircuitBreaker.antt =====
-- app/policies/retry.py, `CircuitBreaker`, for calls that follow one another. The operation is a step on a state
-- `S` that may raise; a call reads the monotonic clock when it checks the breaker, and once more if it fails.
pub mod States
use enterprise_llm_assistant.Core.Exceptions.{circuit_breaker_open}
use enterprise_llm_assistant.Core.Settings.{Settings, or_default}
use enterprise_llm_assistant.Prelude.{ℕ, ◌+◌, Bool, true, false, Option, none, some}
use enterprise_llm_assistant.Prelude.{if◌then◌else◌, leb}
use enterprise_llm_assistant.Prelude.Exec.{Result, ok, raised, Exec}

pub record CircuitBreaker : Type 0 where
  pub failure_threshold : ℕ
  pub reset_timeout : ℕ
  pub failure_count : ℕ
  pub opened_at : Option ℕ

unfoldable pub circuit_breaker : Settings → Option ℕ → Option ℕ → CircuitBreaker
unfolding or_default
circuit_breaker cfg failure_threshold reset_timeout = record {
  failure_threshold = or_default failure_threshold cfg.circuit_breaker_failure_threshold;
  reset_timeout = or_default reset_timeout cfg.circuit_breaker_reset_timeout;
  failure_count = 0;
  opened_at = none;
}

-- `now - opened >= reset_timeout` is the test `opened + reset_timeout ≤ now`, which needs no negative number.
unfoldable pub is_open : ℕ → CircuitBreaker → Bool × CircuitBreaker
is_open now c = elim c.opened_at [
  | none ↦ (false, c)
  | some opened ↦
      if leb (opened + c.reset_timeout) now
      then (false, record c { failure_count = 0; opened_at = none })
      else (true, c)
]

unfoldable pub on_success : CircuitBreaker → CircuitBreaker
on_success c = record c { failure_count = 0; opened_at = none }

unfoldable pub on_failure : ℕ → CircuitBreaker → CircuitBreaker
on_failure now c =
    let count = c.failure_count + 1 in
    if leb c.failure_threshold count
    then record c { failure_count = count; opened_at = some now }
    else record c { failure_count = count }

pub record Guarded (S : Type 0) : Type 0 where
  pub breaker : CircuitBreaker
  pub state : S

module _ {S A : Type 0} where
  -- `_on_success` or `_on_failure`, by the answer of the operation.
  unfoldable pub settle : ℕ → Result A → S → CircuitBreaker → Result A × Guarded S
  unfolding on_success on_failure
  settle failed_at (ok a) s c = (ok a, record { breaker = on_success c; state = s })
  settle failed_at (raised e) s c =
      (raised e, record { breaker = on_failure failed_at c; state = s })

  unfoldable pub execute : ℕ → ℕ → Exec S A → Exec (Guarded S) A
  unfolding is_open settle
  execute now failed_at operation g =
      let (open_now, c) = is_open now g.breaker in
      let (r, s) = operation g.state in
      if open_now
      then (raised (circuit_breaker_open "Circuit breaker is open"), record g { breaker = c })
      else settle failed_at r s c
