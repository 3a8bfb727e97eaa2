-- ===== src/Examples/Logins.antt =====
-- Logins, registrations and resets on two accounts.
use enterprise_llm_assistant.Core.Exceptions.{authentication}
use enterprise_llm_assistant.Core.Settings.{Settings, defaults}
use enterprise_llm_assistant.Prelude.{String, true, false, none, some, [], ◌∷◌, ◌≡◌, refl, arith}
use enterprise_llm_assistant.Prelude.{string_eq, pair_eq}
use enterprise_llm_assistant.Prelude.Text.{strip, lower, truthy}
use enterprise_llm_assistant.Prelude.Dict
use enterprise_llm_assistant.Prelude.Exec.{ok, raised}
use enterprise_llm_assistant.Security.AuthLimits.{
  normalize, active_redis, failures_of, record_failure, assert_not_locked, locked_out,
}
use enterprise_llm_assistant.Security.AuthLimits.Lockout.{Holds}
use enterprise_llm_assistant.Security.Authentication.{verify_password}
use enterprise_llm_assistant.Repositories.Users
use enterprise_llm_assistant.Repositories.Users.{User}
use enterprise_llm_assistant.Services.AuthService.{sanitize_user, password_matches, login, register}
use enterprise_llm_assistant.Services.AuthService.Login.{
  login_succeeds, lookup_user, accepts, login_needs, failed_login_keeps,
}
use enterprise_llm_assistant.Services.AuthService.BruteForce.{try_logins, brute_force_locked}
use enterprise_llm_assistant.Services.AuthService.Registration.{
  registered, after_register, register-login, register_twice,
}
use enterprise_llm_assistant.Examples.Setup.{
  no_redis, plain, plain-IsLawful, ada, fresh_auth, draws, browser,
}

abbrev strict : Settings
strict = record defaults { auth_login_max_failures = 2 }

ada_found : lookup_user no_redis plain strict "Ada@example.com" fresh_auth ≡ ok (some ada)
unfolding Users.get_by_email normalize strip lower truthy string_eq Dict.lookup
ada_found = refl

ada_refuses : accepts no_redis plain strict "guess" (some ada) ≡ false
unfolding password_matches verify_password truthy string_eq
ada_refuses = refl

ada_accepts : password_matches plain "correct horse" ada ≡ true
unfolding password_matches verify_password truthy string_eq
ada_accepts = refl

ada_unlocked : Holds no_redis strict (normalize "Ada@example.com") 0 none fresh_auth.lockout
unfolding active_redis failures_of Dict.lookup
ada_unlocked = record { in_memory = refl; failed = refl; until_is = refl }

ada_let_in : (assert_not_locked no_redis strict 0 "Ada@example.com" fresh_auth.lockout).0 ≡ ok tt
unfolding assert_not_locked active_redis Dict.lookup
ada_let_in = refl

brute_force_locked_example :
    (login no_redis plain strict
      (draws 200)
      "Ada@example.com"
      "correct horse"
      browser
      (login no_redis plain strict (draws 100) "Ada@example.com" "guess" browser (
        try_logins no_redis plain strict "Ada@example.com" browser
          (draws 0 ∷ [])
          "guess"
          fresh_auth)).1).0
    ≡ raised locked_out
brute_force_locked_example =
    brute_force_locked no_redis plain strict "Ada@example.com" browser (draws 0 ∷ []) (draws 100)
      (draws 200) "guess" "correct horse" fresh_auth (some ada) ada_found ada_refuses ada_unlocked
      refl (omega arith)

abbrev email : String
email = "Ada@example.com"

ada_logged_in :
    (login no_redis plain strict (draws 0) email "correct horse" browser fresh_auth).0
    ≡ ok (sanitize_user ada, "s1")
ada_logged_in =
    login_succeeds no_redis plain strict (draws 0) email "correct horse" browser fresh_auth ada
      ada_let_in ada_found ada_accepts refl

login_needs_example :
    (user : User) × (lookup_user no_redis plain strict email fresh_auth ≡ ok (some user))
    × ((assert_not_locked no_redis strict 0 email fresh_auth.lockout).0 ≡ ok tt)
    × (password_matches plain "correct horse" user ≡ true)
    × (user.is_active ≡ true)
    × (sanitize_user ada ≡ sanitize_user user)
    × ((draws 0).session_id ≡ (draws 0).session_id)
login_needs_example =
    login_needs no_redis plain strict (draws 0) email "correct horse" browser fresh_auth
      ada_logged_in

ada_filed : Dict.lookup "u1" fresh_auth.users.users ≡ some ada
unfolding Dict.lookup string_eq
ada_filed = refl

id_named : truthy "s1" ≡ true
unfolding truthy
id_named = refl

ada_refused :
    (login no_redis plain strict (draws 0) email "guess" browser fresh_auth).0
    ≡ raised (authentication "Invalid email or password")
unfolding login Users.get_by_email normalize strip lower truthy string_eq Dict.lookup
    assert_not_locked active_redis password_matches verify_password record_failure
ada_refused = refl

failed_login_keeps_example :
    ((login no_redis plain strict (draws 0) email "guess" browser fresh_auth).1.sessions
      ≡ fresh_auth.sessions)
    × ((login no_redis plain strict (draws 0) email "guess" browser fresh_auth).1.users.users
        ≡ fresh_auth.users.users)
failed_login_keeps_example =
    failed_login_keeps no_redis plain strict (draws 0) email "guess" browser fresh_auth ada_refused

eve_free : Dict.lookup (normalize "Eve@example.com") fresh_auth.users.by_email ≡ none
unfolding Dict.lookup string_eq normalize strip lower
eve_free = refl

uuid_named : truthy "u3" ≡ true
unfolding truthy
uuid_named = refl

eve_spelled : normalize " eve@EXAMPLE.com " ≡ normalize "Eve@example.com"
unfolding normalize strip lower
eve_spelled = refl

eve_let_in : (assert_not_locked no_redis strict 5 " eve@EXAMPLE.com " fresh_auth.lockout).0 ≡ ok tt
unfolding assert_not_locked active_redis Dict.lookup
eve_let_in = refl

register-login_example :
    ((register no_redis plain strict (draws 0) "Eve@example.com" "long enough" browser fresh_auth).0
      ≡ ok (
        sanitize_user (
            registered no_redis plain strict
              (draws 0)
              "Eve@example.com"
              "long enough"
              browser
              fresh_auth),
        "t1",
      ))
    × ((login no_redis plain strict (draws 5) " eve@EXAMPLE.com " "long enough" browser (
          after_register no_redis plain strict
            (draws 0)
            "Eve@example.com"
            "long enough"
            browser
            fresh_auth)).0
        ≡ ok (
          sanitize_user (
              registered no_redis plain strict
                (draws 0)
                "Eve@example.com"
                "long enough"
                browser
                fresh_auth),
          "s1",
        ))
register-login_example =
    register-login no_redis plain strict (draws 0) "Eve@example.com" "long enough" browser
      fresh_auth (draws 5) " eve@EXAMPLE.com " plain-IsLawful (omega arith) (omega arith) eve_free
      uuid_named eve_spelled eve_let_in

register_twice_example :
    register no_redis plain strict (draws 5) " eve@EXAMPLE.com " "another one" browser (
      after_register no_redis plain strict
        (draws 0)
        "Eve@example.com"
        "long enough"
        browser
        fresh_auth)
    ≡ (
      raised (authentication "Email already registered"),
      after_register no_redis plain strict
          (draws 0)
          "Eve@example.com"
          "long enough"
          browser
          fresh_auth,
    )
register_twice_example =
    register_twice no_redis plain strict (draws 0) "Eve@example.com" "long enough" browser
      fresh_auth (draws 5) " eve@EXAMPLE.com " "another one" (omega arith) eve_free eve_spelled
      (omega arith)
