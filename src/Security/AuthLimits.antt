-- ===== src/Security/AuthLimits.antt =====
-- app/security/auth_limits.py, with the loop that app/middleware/rate_limit.py shares with it. A limiter or
-- a lockout store keeps its dicts, and the Redis server that it may use.
pub mod Window
pub mod Serving
pub mod Lockout
use enterprise_llm_assistant.Core.Exceptions.{Exception, http}
use enterprise_llm_assistant.Core.Settings.{Settings, seconds}
use enterprise_llm_assistant.Clients.Redis.{Redis}
use enterprise_llm_assistant.Prelude.{
  ℕ, ◌+◌, ◌-◌, String, Bool, true, false, Option, none, some, List, [], ◌∷◌, ◌++◌,
}
use enterprise_llm_assistant.Prelude.{◌==◌, string_eq, if◌then◌else◌, ltb, leb, eqb, length}
use enterprise_llm_assistant.Prelude.Text.{strip, lower, truthy}
use enterprise_llm_assistant.Prelude.Dict
use enterprise_llm_assistant.Prelude.Dict.{Dict}
use enterprise_llm_assistant.Prelude.Exec.{Result, ok, raised, Exec}
use Prim.Native.String.{◌++◌ as ◌<>◌}

-- `while bucket and now - bucket[0] > window: bucket.popleft()`
unfoldable pub drop_stale : ℕ → ℕ → List ℕ → List ℕ
drop_stale window now [] = []
drop_stale window now (t ∷ bucket) = elim (ltb window (now - t)) [
  | true ↦ drop_stale window now bucket
  | false ↦ t ∷ bucket
]

-- The rest of the loop's function on one bucket: whether the request is let in, and the bucket after it.
unfoldable pub admit : ℕ → ℕ → ℕ → List ℕ → Bool × List ℕ
unfolding drop_stale
admit limit window now bucket =
    let fresh = drop_stale window now bucket in
    if leb limit (length fresh) then (false, fresh) else (true, fresh ++ now ∷ [])

-- A `defaultdict(deque)`
abbrev pub Buckets : Type 0
Buckets = Dict String (List ℕ)

unfoldable pub bucket_of : String → Buckets → List ℕ
bucket_of key buckets = elim (Dict.lookup key buckets) [ none ↦ [] | some bucket ↦ bucket ]

abbrev pub too_many : Exception
too_many = http 429 "Too many auth attempts"

abbrev pub locked_out : Exception
locked_out = http 423 "Account temporarily locked"

pub record RateLimiter (C : Type 0) : Type 0 where
  pub redis : Option C
  pub buckets : Buckets

pub record LockoutStore (C : Type 0) : Type 0 where
  pub redis : Option C
  pub failures : Dict String ℕ
  pub locked_until : Dict String ℕ

-- `self._redis is not None and settings.SESSION_BACKEND == "redis"`
unfoldable pub active_redis {ℓ} : {C : Type ℓ} → Settings → Option C → Option C
active_redis cfg none = none
active_redis cfg (some c) = if cfg.session_backend == "redis" then some c else none

-- `email.strip().lower()`
unfoldable pub normalize : String → String
unfolding strip lower
normalize email = lower (strip email)

unfoldable pub failures_of : String → Dict String ℕ → ℕ
failures_of key failures = elim (Dict.lookup key failures) [ none ↦ 0 | some n ↦ n ]

module _ (R : Redis) (cfg : Settings) where
  -- One `time.monotonic()` reading, `now`.
  unfoldable pub check_memory : ℕ → String → Exec (RateLimiter R.State) Unit
  unfolding admit bucket_of
  check_memory now key l =
      let (admitted, bucket) =
        admit cfg.auth_rate_limit_requests (seconds cfg.auth_rate_limit_window_seconds) now
          (bucket_of key l.buckets) in
      let l' : RateLimiter R.State = record l { buckets = Dict.insert key bucket l.buckets } in
      if admitted then (ok tt, l') else (raised too_many, l')

  check_redis : R.State → String → Exec (RateLimiter R.State) Unit
  check_redis c key l =
      let redis_key : String = "auth_rl:" <> key in
      let (count, c1) = R.incr redis_key c in
      let c2 : R.State =
        if eqb count 1 then R.expire redis_key cfg.auth_rate_limit_window_seconds c1 else c1 in
      let l' : RateLimiter R.State = record l { redis = some c2 } in
      if ltb cfg.auth_rate_limit_requests count then (raised too_many, l') else (ok tt, l')

  -- `AuthRateLimiter.check`
  unfoldable pub check : ℕ → String → Exec (RateLimiter R.State) Unit
  unfolding check_memory check_redis active_redis
  check now key l = elim (active_redis cfg l.redis) [
    | none ↦ check_memory now key l
    | some c ↦ check_redis c key l
  ]

  -- `LoginLockoutStore.assert_not_locked`; a time of 0 counts as no time, as in the source.
  unfoldable pub assert_not_locked : ℕ → String → Exec (LockoutStore R.State) Unit
  unfolding active_redis
  assert_not_locked now email l =
      let key = normalize email in
      elim (active_redis cfg l.redis) [
        | some c ↦ elim (R.get ("auth_lock:" <> key) c) [
          | none ↦ (ok tt, l)
          | some locked ↦ if truthy locked then (raised locked_out, l) else (ok tt, l)
        ]
        | none ↦ elim (Dict.lookup key l.locked_until) [
          | none ↦ (ok tt, l)
          | some until ↦
              if eqb until 0
              then (ok tt, l)
              else if ltb now until
              then (raised locked_out, l)
              else (
                ok tt,
                record l {
                  locked_until = Dict.erase key l.locked_until;
                  failures = Dict.erase key l.failures;
                },
              )
        ]
      ]

  record_failure_redis : R.State → String → R.State
  record_failure_redis c key =
      let fail_key : String = "auth_fail:" <> key in
      let (count, c1) = R.incr fail_key c in
      let c2 : R.State =
        if eqb count 1 then R.expire fail_key cfg.auth_lockout_seconds c1 else c1 in
      if leb cfg.auth_login_max_failures count
      then R.set ("auth_lock:" <> key) "1" (some cfg.auth_lockout_seconds) c2
      else c2

  record_failure_memory : ℕ → String → LockoutStore R.State → LockoutStore R.State
  unfolding failures_of
  record_failure_memory now key l =
      let count = failures_of key l.failures + 1 in
      if leb cfg.auth_login_max_failures count
      then record l {
        locked_until = Dict.insert key (now + seconds cfg.auth_lockout_seconds) l.locked_until;
        failures = Dict.insert key 0 (Dict.insert key count l.failures);
      }
      else record l { failures = Dict.insert key count l.failures }

  -- `LoginLockoutStore.record_failure`
  unfoldable pub record_failure : ℕ → String → Exec (LockoutStore R.State) Unit
  unfolding record_failure_memory record_failure_redis active_redis
  record_failure now email l =
      let key = normalize email in
      elim (active_redis cfg l.redis) [
        | some c ↦ (ok tt, record l { redis = some (record_failure_redis c key) })
        | none ↦ (ok tt, record_failure_memory now key l)
      ]

  -- `LoginLockoutStore.clear_failures`
  unfoldable pub clear_failures : String → Exec (LockoutStore R.State) Unit
  unfolding active_redis
  clear_failures email l =
      let key = normalize email in
      elim (active_redis cfg l.redis) [
        | some c ↦ (
          ok tt,
          record l {
            redis = some (R.delete ("auth_lock:" <> key) (R.delete ("auth_fail:" <> key) c));
          },
        )
        | none ↦ (
          ok tt,
          record l {
            failures = Dict.erase key l.failures;
            locked_until = Dict.erase key l.locked_until;
          },
        )
      ]
