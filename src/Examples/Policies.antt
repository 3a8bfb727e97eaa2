-- ===== src/Examples/Policies.antt =====
-- Retries of an operation that counts its calls, and a breaker around one that always raises.
use enterprise_llm_assistant.Core.Exceptions.{runtime_error, circuit_breaker_open}
use enterprise_llm_assistant.Prelude.{ℕ, ◌+◌, none, some, [], ◌∷◌, ◌≡◌, refl, arith}
use enterprise_llm_assistant.Prelude.{if◌then◌else◌, ltb}
use enterprise_llm_assistant.Prelude.Exec.{ok, raised, Exec}
use enterprise_llm_assistant.Policies.Retry.{RetryPolicy}
use enterprise_llm_assistant.Policies.Retry.Attempts.{Fails, never, again}
use enterprise_llm_assistant.Policies.CircuitBreaker
use enterprise_llm_assistant.Policies.CircuitBreaker.{CircuitBreaker, Guarded}
use enterprise_llm_assistant.Policies.CircuitBreaker.States.{
  IsSound, IsClosed, IsFailing, calls, execute-IsSound, opens_at_threshold,
}

-- Raises on the first two calls; the state counts the calls.
abbrev third_time : Exec ℕ ℕ
third_time n = if ltb n 2 then (raised (runtime_error "busy"), n + 1) else (ok n, n + 1)

abbrev always_busy : Exec ℕ ℕ
always_busy n = (raised (runtime_error "busy"), n + 1)

abbrev three_times : RetryPolicy
three_times = record { max_attempts = 3; backoff = 10 }

two_failures : Fails third_time 2 0 2
two_failures = again (runtime_error "busy") refl (again (runtime_error "busy") refl never)

busy_twice : Fails always_busy 2 0 2
busy_twice = again (runtime_error "busy") refl (again (runtime_error "busy") refl never)

abbrev closed_breaker : CircuitBreaker
closed_breaker = record {
  failure_threshold = 2;
  reset_timeout = 30;
  failure_count = 0;
  opened_at = none;
}

abbrev guarded : Guarded ℕ
guarded = record { breaker = closed_breaker; state = 0 }

abbrev opened : Guarded ℕ
opened = record {
  breaker = record closed_breaker { failure_count = 2; opened_at = some 5 };
  state = 2;
}

closed_breaker-IsSound : IsSound closed_breaker
closed_breaker-IsSound = record { positive = omega arith; counted = omega arith }

closed_breaker-IsClosed : IsClosed always_busy 0 2 30 closed_breaker
closed_breaker-IsClosed = record {
  closed = refl;
  counted = refl;
  threshold_is = refl;
  timeout_is = refl;
}

always_busy-IsFailing : IsFailing always_busy
always_busy-IsFailing s = (runtime_error "busy", refl)

execute-IsSound_example : IsSound (CircuitBreaker.execute 1 2 always_busy guarded).1.breaker
execute-IsSound_example = execute-IsSound always_busy 1 2 guarded closed_breaker-IsSound

opens_at_threshold_example :
    CircuitBreaker.execute 20 21 always_busy
      (CircuitBreaker.execute 3 4 always_busy (calls always_busy ((1, 2) ∷ []) guarded)).1
    ≡ (
      raised (circuit_breaker_open "Circuit breaker is open"),
      (CircuitBreaker.execute 3 4 always_busy (calls always_busy ((1, 2) ∷ []) guarded)).1,
    )
opens_at_threshold_example =
    opens_at_threshold always_busy ((1, 2) ∷ []) 3 4 20 21 2 30 guarded always_busy-IsFailing refl
      closed_breaker-IsClosed (omega arith)
