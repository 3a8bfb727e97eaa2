-- ===== src/Security/AuthLimits/Lockout.antt =====
-- `LoginLockoutStore` with the dicts of the process as its backend: when an account is locked.
use enterprise_llm_assistant.Core.Settings.{Settings, seconds}
use enterprise_llm_assistant.Clients.Redis.{Redis}
use enterprise_llm_assistant.Prelude.{
  ℕ, suc, ◌≤◌, ◌<◌, ◌+◌, String, Option, none, some, List, [], ◌∷◌, ◌≡◌, ◌≢◌, arith,
}
use enterprise_llm_assistant.Prelude.{string_eq, if◌then◌else◌, ltb, length}
use enterprise_llm_assistant.Prelude.Dict
use enterprise_llm_assistant.Prelude.Exec.{ok, raised}
use enterprise_llm_assistant.Security.AuthLimits.{
  LockoutStore, active_redis, normalize, failures_of, assert_not_locked, record_failure,
  clear_failures, locked_out,
}

module _ (R : Redis) (cfg : Settings) where
  -- Failed logins of one account at the given times.
  abbrev pub record_failures : List ℕ → String → LockoutStore R.State → LockoutStore R.State
  record_failures [] email l = l
  record_failures (now ∷ times) email l =
      record_failures times email (record_failure R cfg now email l).1

  -- `record_failure` raises nothing.
  pub record_failure-returns :
      (now : ℕ) (email : String) (l : LockoutStore R.State)
      → (record_failure R cfg now email l).0 ≡ ok tt
  unfolding record_failure
  record_failure-returns now email l = ground arith

  -- What the dicts of the process say of one key.
  pub record Holds (key : String) (count : ℕ) (until : Option ℕ) (l : LockoutStore R.State)
      : Type 0 where
    pub in_memory : active_redis cfg l.redis ≡ none
    pub failed : failures_of key l.failures ≡ count
    pub until_is : Dict.lookup key l.locked_until ≡ until

  module _ (email : String) where
    pub Holds-failure :
        {count : ℕ} {until : Option ℕ} {l : LockoutStore R.State} (now : ℕ)
        → Holds (normalize email) count until l
        → count + 1 < cfg.auth_login_max_failures
        → Holds (normalize email) (count + 1) until (record_failure R cfg now email l).1
    unfolding record_failure
    Holds-failure {l} now h below =
        rw (h.in_memory, record_failure) (grind (arith, Dict.lookup-insert))

    Holds-last_failure :
        {count : ℕ} {until : Option ℕ} {l : LockoutStore R.State} (now : ℕ)
        → Holds (normalize email) count until l
        → cfg.auth_login_max_failures ≤ count + 1
        → Holds
            (normalize email)
            0
            (some (now + seconds cfg.auth_lockout_seconds))
            (record_failure R cfg now email l).1
    unfolding record_failure
    Holds-last_failure {l} now h reached =
        rw (h.in_memory, record_failure) (grind (arith, Dict.lookup-insert))

    pub Holds-record_failures :
        (times : List ℕ) {count : ℕ} {until : Option ℕ} {l : LockoutStore R.State}
        → Holds (normalize email) count until l
        → count + length times < cfg.auth_login_max_failures
        → Holds (normalize email) (count + length times) until (record_failures times email l)
    Holds-record_failures [] {count} h below = let e : count + 0 ≡ count = omega arith in rw e h
    Holds-record_failures (now ∷ times) {count} h below =
        let e : count + suc (length times) ≡ count + 1 + length times = omega arith in
        rw e (Holds-record_failures times (Holds-failure now h (omega arith)) (omega arith))

    -- The answer of `assert_not_locked`, by the time that the dict holds.
    asserted :
        {count : ℕ} {until : Option ℕ} {l : LockoutStore R.State} (now : ℕ)
        → Holds (normalize email) count until l
        → (assert_not_locked R cfg now email l).0
          ≡ elim until [ none ↦ ok tt | some t ↦ if ltb now t then raised locked_out else ok tt ]
    unfolding assert_not_locked
    asserted {until} {l} now h = rw (h.in_memory, assert_not_locked) (ground arith)

    -- An account without a lockout passes, and nothing changes.
    pub unlocked-assert_not_locked :
        {count : ℕ} {l : LockoutStore R.State} (now : ℕ)
        → Holds (normalize email) count none l
        → assert_not_locked R cfg now email l ≡ (ok tt, l)
    unfolding assert_not_locked
    unlocked-assert_not_locked {l} now h =
        rw (h.in_memory, assert_not_locked) (rw (h.until_is, assert_not_locked))

    -- From an account without failures and without a lockout, in the dicts of the process, fewer failures
    -- than `AUTH_LOGIN_MAX_FAILURES` lock nothing.
    pub open_before_limit :
        (times : List ℕ) (now : ℕ) {l : LockoutStore R.State}
        → Holds (normalize email) 0 none l
        → length times < cfg.auth_login_max_failures
        → (assert_not_locked R cfg now email (record_failures times email l)).0 ≡ ok tt
    open_before_limit times now h below = asserted now (Holds-record_failures times h (omega arith))

    -- From an account without failures and without a lockout, in the dicts of the process, the failure that
    -- reaches `AUTH_LOGIN_MAX_FAILURES` locks it: logins are refused with status 423 exactly until
    -- `AUTH_LOCKOUT_SECONDS` have passed since that failure.
    pub locked_exactly :
        (times : List ℕ) (last now : ℕ) {l : LockoutStore R.State}
        → Holds (normalize email) 0 none l
        → suc (length times) ≡ cfg.auth_login_max_failures
        → (assert_not_locked R cfg now email
            (record_failure R cfg last email (record_failures times email l)).1).0
          ≡ (if ltb now (last + seconds cfg.auth_lockout_seconds) then raised locked_out else ok tt)
    locked_exactly times last now h reached =
        asserted now
          (Holds-last_failure last (Holds-record_failures times h (omega arith)) (omega arith))

    -- Once a lockout in the dicts of the process, until a time above 0, has passed, `assert_not_locked`
    -- leaves the account without failures and without a lockout.
    pub lockout_forgotten :
        {count until : ℕ} {l : LockoutStore R.State} (now : ℕ)
        → Holds (normalize email) count (some until) l
        → 0 < until
        → until ≤ now
        → Holds (normalize email) 0 none (assert_not_locked R cfg now email l).1
    unfolding assert_not_locked failures_of
    lockout_forgotten {until} {l} now h positive passed =
        rw (h.in_memory, assert_not_locked)
          (rw (h.until_is, assert_not_locked) (grind (arith, Dict.lookup-erase)))

    -- `clear_failures` leaves an account without failures and without a lockout.
    pub Holds-clear_failures :
        {count : ℕ} {until : Option ℕ} {l : LockoutStore R.State}
        → Holds (normalize email) count until l
        → Holds (normalize email) 0 none (clear_failures R cfg email l).1
    unfolding clear_failures failures_of
    Holds-clear_failures {l} h = rw (h.in_memory, clear_failures) (grind (arith, Dict.lookup-erase))

  -- In the dicts of the process, a failure of one account changes neither the failures nor the lockout of
  -- an account with another normalised e-mail address.
  pub record_failure-other :
      (email other : String) {count : ℕ} {until : Option ℕ} {l : LockoutStore R.State} (now : ℕ)
      → normalize other ≢ normalize email
      → Holds (normalize other) count until l
      → Holds (normalize other) count until (record_failure R cfg now email l).1
  unfolding record_failure
  record_failure-other email other {l} now differ h =
      rw (h.in_memory, record_failure) (grind (arith, Dict.lookup-insert))
