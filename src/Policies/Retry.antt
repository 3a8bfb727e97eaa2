-- ===== src/Policies/Retry.antt =====
-- app/policies/retry.py, `RetryPolicy` and `TimeoutPolicy`. An operation is a step on some state `S` that may
-- raise; `slept` collects the arguments of `asyncio.sleep`.
pub mod Attempts
use enterprise_llm_assistant.Core.Exceptions.{Exception, runtime_error, timeout_error}
use enterprise_llm_assistant.Core.Settings.{Settings, or_default}
use enterprise_llm_assistant.Prelude.{
  ℕ, zero, suc, ◌*◌, true, false, Option, none, some, List, [], ◌∷◌, ◌++◌,
}
use enterprise_llm_assistant.Prelude.{if◌then◌else◌, eqb, leb}
use enterprise_llm_assistant.Prelude.Exec.{Result, ok, raised, Exec}

pub record RetryPolicy : Type 0 where
  pub max_attempts : ℕ
  pub backoff : ℕ

unfoldable pub retry_policy : Settings → Option ℕ → Option ℕ → RetryPolicy
unfolding or_default
retry_policy cfg max_attempts backoff = record {
  max_attempts = or_default max_attempts cfg.retry_max_attempts;
  backoff = or_default backoff cfg.retry_backoff;
}

pub record Waiting (S : Type 0) : Type 0 where
  pub state : S
  pub slept : List ℕ

-- `last_error or RuntimeError(…)`
unfoldable pub last_or_runtime : Option Exception → Exception
last_or_runtime none = runtime_error "Retry policy failed without an exception"
last_or_runtime (some e) = e

module _ {S A : Type 0} where
  -- The loop, with the rounds that `range` has left, the number of the attempt and the last error.
  unfoldable pub attempt_from :
      RetryPolicy → Exec S A → ℕ → ℕ → Option Exception → Exec (Waiting S) A
  unfolding last_or_runtime
  attempt_from p operation zero attempt last w = (raised (last_or_runtime last), w)
  attempt_from p operation (suc rounds) attempt last w =
      let (r, state) = operation w.state in
      elim r [
        | ok a ↦ (ok a, record w { state = state })
        | raised e ↦ elim (eqb attempt p.max_attempts) [
          | true ↦ (raised (last_or_runtime (some e)), record w { state = state })
          | false ↦
              attempt_from p operation rounds (suc attempt) (some e)
                (record w { state = state; slept = w.slept ++ p.backoff * attempt ∷ [] })
        ]
      ]

  unfoldable pub execute : RetryPolicy → Exec S A → Exec (Waiting S) A
  unfolding attempt_from
  execute p operation = attempt_from p operation p.max_attempts 1 none

  -- `asyncio.wait_for`: an operation that takes longer is cancelled, which leaves the state that
  -- `cancelled` says.
  unfoldable pub wait_for : ℕ → (S → ℕ) → (S → S) → Exec S A → Exec S A
  wait_for timeout took cancelled operation s =
      if leb (took s) timeout then operation s else (raised timeout_error, cancelled s)

  -- `TimeoutPolicy.execute`
  unfoldable pub execute_in_time : Settings → Option ℕ → (S → ℕ) → (S → S) → Exec S A → Exec S A
  unfolding wait_for or_default
  execute_in_time cfg timeout_seconds took cancelled operation =
      wait_for (or_default timeout_seconds cfg.request_timeout) took cancelled operation
