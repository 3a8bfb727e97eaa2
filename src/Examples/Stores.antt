-- ===== src/Examples/Stores.antt =====
-- Users and tokens in small stores.
use enterprise_llm_assistant.Prelude.{◌≤◌, true, false, Option, none, some, [], ◌∷◌, ◌≡◌, ◌↔◌, refl}
use enterprise_llm_assistant.Prelude.{string_eq}
use enterprise_llm_assistant.Prelude.Text.{truthy}
use enterprise_llm_assistant.Prelude.Dict
use enterprise_llm_assistant.Prelude.Exec.{ok}
use enterprise_llm_assistant.Security.AuthLimits.{normalize}
use enterprise_llm_assistant.Repositories.Users.{
  User, Users, no_users, create_user, get_by_email, create_password_reset_token,
  consume_password_reset_token,
}
use enterprise_llm_assistant.Repositories.Users.Tokens.{successes, consumed_at_most_once}
use enterprise_llm_assistant.Repositories.Users.Runs as UserRuns
use enterprise_llm_assistant.Repositories.Users.Runs.{get_by_email-reached}
use enterprise_llm_assistant.Examples.Setup.{plain}

u1_named : truthy "u1" ≡ true
unfolding truthy
u1_named = refl

abbrev with_token : Users
with_token = (create_password_reset_token "t" 0 "u1" 1 no_users).1

consumed_at_most_once_example : successes "t" (5 ∷ 6 ∷ 7 ∷ []) with_token ≤ 1
consumed_at_most_once_example = consumed_at_most_once "t" (5 ∷ 6 ∷ 7 ∷ []) with_token

-- The bound is reached: of the three attempts, one is answered.
first_attempt_counts : successes "t" (5 ∷ 6 ∷ 7 ∷ []) with_token ≡ 1
unfolding successes consume_password_reset_token create_password_reset_token Dict.lookup Dict.insert
    string_eq
first_attempt_counts = refl

abbrev one_user : Users
one_user =
    (create_user plain "u1" "salt" 0 "Ada@example.com" (some "secret") "user" false no_users).1

nobody_filed : Dict.lookup "u1" no_users.users ≡ none
unfolding Dict.lookup
nobody_filed = refl

one_user-Reached : UserRuns.Reached plain one_user
one_user-Reached = UserRuns.next UserRuns.started (
    UserRuns.created "u1" "salt" 0 "Ada@example.com" (some "secret") "user" false no_users
      nobody_filed u1_named)

get_by_email-reached_example :
    (found : Option User) × (get_by_email " ada@EXAMPLE.com" one_user ≡ (ok found, one_user))
    × ((user : User)
        → (found ≡ some user) ↔ (
            (user.email ≡ normalize " ada@EXAMPLE.com")
            × (Dict.lookup user.id one_user.users ≡ some user)))
get_by_email-reached_example = get_by_email-reached plain " ada@EXAMPLE.com" one_user-Reached
