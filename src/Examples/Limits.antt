-- ===== src/Examples/Limits.antt =====
-- Rate limits and lockouts at small bounds, and the access matrix.
use Prim.Native.String.{count}
use enterprise_llm_assistant.Core.Settings.{Settings, defaults, seconds}
use enterprise_llm_assistant.Prelude.{
  ℕ, ◌≤◌, ◌+◌, ap, String, none, some, List, [], ◌∷◌, ◌≡◌, ◌≢◌, refl, arith,
}
use enterprise_llm_assistant.Prelude.{string_eq, if◌then◌else◌, ltb, length, select}
use enterprise_llm_assistant.Prelude.Text.{strip, lower}
use enterprise_llm_assistant.Prelude.Dict
use enterprise_llm_assistant.Prelude.Exec.{ok, raised}
use enterprise_llm_assistant.Security.AuthLimits.{
  LockoutStore, normalize, active_redis, failures_of, assert_not_locked, record_failure, check,
  too_many, locked_out,
}
use enterprise_llm_assistant.Security.AuthLimits.Window.{in_window}
use enterprise_llm_assistant.Security.AuthLimits.Serving.{
  serve, started, times_of, limit_in_every_window, check-window,
}
use enterprise_llm_assistant.Security.AuthLimits.Lockout.{Holds, record_failures, locked_exactly}
use enterprise_llm_assistant.Examples.Setup.{no_redis}

-- Two calls in ten seconds, two failures to a lockout of a minute.
abbrev tight : Settings
tight = record defaults {
  auth_rate_limit_requests = 2;
  auth_rate_limit_window_seconds = 10;
  auth_login_max_failures = 2;
  auth_lockout_seconds = 60;
}

abbrev three_calls : List (ℕ × String)
three_calls = (0, "ip") ∷ (5, "ip") ∷ (6, "ip") ∷ []

no_server : active_redis {C = Unit {0}} tight none ≡ none
unfolding active_redis
no_server = refl

limit_in_every_window_example :
    length (
      select
        (in_window (seconds 10) 6)
        (times_of "ip" (serve no_redis tight three_calls (started no_redis tight none) []).1))
    ≤ 2
limit_in_every_window_example =
    limit_in_every_window no_redis tight none three_calls "ip" 6 no_server (omega arith)

check-window_example :
    (check no_redis tight 7 "ip"
      (serve no_redis tight three_calls (started no_redis tight none) []).0).0
    ≡ (if ltb
          (length (
            select (in_window (seconds 10) 7) (
              times_of "ip" (serve no_redis tight three_calls (started no_redis tight none) []).1)))
          2
        then ok tt
        else raised too_many)
check-window_example =
    check-window no_redis tight none three_calls 7 "ip" no_server (omega arith) (omega arith)

abbrev no_failures : LockoutStore Unit
no_failures = record { redis = none; failures = []; locked_until = [] }

abbrev locked_store : LockoutStore Unit
locked_store = record { redis = none; failures = []; locked_until = ("a@b.c", 100) ∷ [] }

nobody_locked : (key : String) → Holds no_redis tight key 0 none no_failures
unfolding active_redis failures_of Dict.lookup
nobody_locked key = record { in_memory = refl; failed = refl; until_is = refl }

one_locked : Holds no_redis tight (normalize "A@b.c") 0 (some 100) locked_store
unfolding active_redis failures_of Dict.lookup normalize strip lower string_eq
one_locked = record { in_memory = refl; failed = refl; until_is = refl }

others_differ : normalize "A@b.c" ≢ normalize "dora@e.f"
unfolding normalize strip lower
others_differ = λ p. omega (arith, ap (λ (s : String). count s) p)

locked_exactly_example :
    (assert_not_locked no_redis tight 3 "A@b.c"
      (record_failure no_redis tight 2 "A@b.c"
        (record_failures no_redis tight (1 ∷ []) "A@b.c" no_failures)).1).0
    ≡ (if ltb 3 (2 + seconds 60) then raised locked_out else ok tt)
locked_exactly_example =
    locked_exactly no_redis tight "A@b.c" (1 ∷ []) 2 3 (nobody_locked (normalize "A@b.c")) refl
