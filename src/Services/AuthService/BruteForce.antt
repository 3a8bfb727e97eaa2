-- ===== src/Services/AuthService/BruteForce.antt =====
-- Repeated failures of `AuthService.login` lock the account, also for the right password.
use enterprise_llm_assistant.Core.Settings.{Settings, seconds}
use enterprise_llm_assistant.Clients.Redis.{Redis}
use enterprise_llm_assistant.Prelude.{
  ℕ, suc, ◌+◌, ◌<◌, String, false, Option, none, some, List, [], ◌∷◌, ◌≡◌, refl, arith, ◌∙◌, ap,
}
use enterprise_llm_assistant.Prelude.{length}
use enterprise_llm_assistant.Prelude.Exec.{ok, raised}
use enterprise_llm_assistant.Security.AuthLimits.{
  normalize, assert_not_locked, record_failure, locked_out,
}
use enterprise_llm_assistant.Security.AuthLimits.Lockout.{
  Holds, record_failures, locked_exactly, Holds-failure, Holds-record_failures,
  unlocked-assert_not_locked, record_failure-returns,
}
use enterprise_llm_assistant.Security.Authentication.{Bcrypt}
use enterprise_llm_assistant.Repositories.Users.{User}
use enterprise_llm_assistant.Services.AuthService.{Auth, Draws, ClientMeta, event, login}
use enterprise_llm_assistant.Services.AuthService.Login.{
  lookup_user, accepts, get_by_email-state, get_by_email-record_audit,
}

module _ (R : Redis) (b : Bcrypt) (cfg : Settings) (email : String) (meta : ClientMeta) where
  -- One login after the other with the same password; the answers are dropped.
  pub try_logins : List Draws → String → Auth R.State → Auth R.State
  try_logins [] password s = s
  try_logins (d ∷ attempts) password s =
      try_logins attempts password (login R b cfg d email password meta s).1

  abbrev pub failed_times : List Draws → List ℕ
  failed_times [] = []
  failed_times (d ∷ attempts) = d.failed_at ∷ failed_times attempts

  length-failed_times : (attempts : List Draws) → length (failed_times attempts) ≡ length attempts
  length-failed_times [] = refl
  length-failed_times (d ∷ attempts) = ap suc (length-failed_times attempts)

  -- The store after a login with a password that the account does not accept.
  wrong_login :
      (d : Draws) (password : String) (s : Auth R.State) (found : Option User) {count : ℕ}
      → lookup_user R b cfg email s ≡ ok found
      → accepts R b cfg password found ≡ false
      → Holds R cfg (normalize email) count none s.lockout
      → ((login R b cfg d email password meta s).1.lockout
          ≡ (record_failure R cfg d.failed_at email s.lockout).1)
        × (lookup_user R b cfg email (login R b cfg d email password meta s).1 ≡ ok found)
  unfolding login
  wrong_login d password s found there wrong open_ = ground (
    arith,
    unlocked-assert_not_locked R cfg email d.checked_at open_,
    get_by_email-state R b cfg email s.users,
    get_by_email-record_audit R b cfg email
        (event "login_failed" none (some (normalize email)) meta none) s.users,
    record_failure-returns R cfg d.failed_at email s.lockout,
  )

  -- A locked account is refused whatever the password.
  locked_login :
      (d : Draws) (password : String) (s : Auth R.State) {e : _}
      → (assert_not_locked R cfg d.checked_at email s.lockout).0 ≡ raised e
      → (login R b cfg d email password meta s).0 ≡ raised e
  unfolding login
  locked_login d password s locked = ground arith

  try_logins-lockout :
      (attempts : List Draws) (password : String) (s : Auth R.State) (found : Option User)
      {count : ℕ}
      → lookup_user R b cfg email s ≡ ok found
      → accepts R b cfg password found ≡ false
      → Holds R cfg (normalize email) count none s.lockout
      → count + length attempts < cfg.auth_login_max_failures
      → ((try_logins attempts password s).lockout
          ≡ record_failures R cfg (failed_times attempts) email s.lockout)
        × (lookup_user R b cfg email (try_logins attempts password s) ≡ ok found)
  unfolding try_logins
  try_logins-lockout [] password s found there wrong open_ below = (refl, there)
  try_logins-lockout (d ∷ attempts) password s found {count} there wrong open_ below =
      let (failed, kept) = wrong_login d password s found there wrong open_ in
      let held = Holds-failure R cfg email d.failed_at open_ (omega arith) in
      let (rest, still) =
        try_logins-lockout attempts password (login R b cfg d email password meta s).1 found
          {count = count + 1} kept wrong (rw failed held) (omega arith) in
      (rest ∙ ap (record_failures R cfg (failed_times attempts) email) failed, still)

  -- From an account without failures and without a lockout, in the dicts of the process, logins with a
  -- password that the account does not accept, as many as `AUTH_LOGIN_MAX_FAILURES`, lock it: a later login
  -- that checks the lockout before `AUTH_LOCKOUT_SECONDS` have passed since the last of them is refused
  -- with status 423, whatever its password.
  pub brute_force_locked :
      (attempts : List Draws) (last d : Draws) (wrong any : String) (s : Auth R.State)
      (found : Option User)
      → lookup_user R b cfg email s ≡ ok found
      → accepts R b cfg wrong found ≡ false
      → Holds R cfg (normalize email) 0 none s.lockout
      → suc (length attempts) ≡ cfg.auth_login_max_failures
      → d.checked_at < last.failed_at + seconds cfg.auth_lockout_seconds
      → (login R b cfg d email any meta
          (login R b cfg last email wrong meta (try_logins attempts wrong s)).1).0
        ≡ raised locked_out
  brute_force_locked attempts last d wrong any s found there bad open_ reached soon =
      let (failed, kept) =
        try_logins-lockout attempts wrong s found there bad open_ (omega arith) in
      let times = failed_times attempts in
      let held =
        Holds-record_failures R cfg email times open_
          (omega (arith, length-failed_times attempts)) in
      let (last_failed, _) =
        wrong_login last wrong (try_logins attempts wrong s) found {count = 0 + length times} kept
          bad (rw failed held) in
      locked_login d any _ (
        rw (last_failed, failed)
          (locked_exactly R cfg email times last.failed_at d.checked_at open_
              (omega (arith, length-failed_times attempts))
            ∙ ground arith))
