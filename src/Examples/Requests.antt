-- ===== src/Examples/Requests.antt =====
-- A registration, a login and a logout from every device, from an empty service.
use enterprise_llm_assistant.Core.Settings.{Settings, defaults}
use enterprise_llm_assistant.Prelude.{true, false, none, some, ◌≡◌, refl}
use enterprise_llm_assistant.Prelude.{string_eq}
use enterprise_llm_assistant.Prelude.Text.{truthy}
use enterprise_llm_assistant.Prelude.Dict
use enterprise_llm_assistant.Security.AuthLimits.{normalize}
use enterprise_llm_assistant.Security.Authentication.{hash_password}
use enterprise_llm_assistant.Security.Sessions
use enterprise_llm_assistant.Security.Sessions.{empty_store}
use enterprise_llm_assistant.Security.Sessions.Index.{belongs_to}
use enterprise_llm_assistant.Repositories.Users
use enterprise_llm_assistant.Repositories.Users.{User, no_users}
use enterprise_llm_assistant.Services.AuthService.{Auth, login, logout_all, register}
use enterprise_llm_assistant.Services.AuthService.Accounts.Consistency.{one_account_per_email}
use enterprise_llm_assistant.Services.AuthService.Accounts.Requests
use enterprise_llm_assistant.Services.AuthService.Accounts.Requests.{
  Served, register-sessions, logged_out_everywhere,
}
use enterprise_llm_assistant.Examples.Setup.{no_redis, plain, fresh_auth, draws, browser}

abbrev short_passwords : Settings
short_passwords = record defaults { auth_min_password_length = 0 }

abbrev new_auth : Auth Unit
new_auth = record fresh_auth { users = no_users }

abbrev registered : Auth Unit
registered =
    (register no_redis plain short_passwords (draws 0) "eve@example.com" "staple" browser
      new_auth).1

abbrev logged_in : Auth Unit
logged_in =
    (login no_redis plain short_passwords (draws 0) "eve@example.com" "staple" browser registered).1

u3_unused : Dict.lookup "u3" new_auth.users.users ≡ none
unfolding Dict.lookup
u3_unused = refl

u3_named : truthy "u3" ≡ true
unfolding truthy
u3_named = refl

registered-Served : Served no_redis plain short_passwords registered
registered-Served =
    Requests.next (Requests.started new_auth refl refl)
      (Requests.registered (draws 0) "eve@example.com" "staple" browser new_auth u3_unused u3_named)

s1_empty : Dict.lookup "s1" empty_store.sessions ≡ none
unfolding Dict.lookup
s1_empty = refl

s1_unused : Dict.lookup "s1" registered.sessions.sessions ≡ none
s1_unused =
    rw
      (register-sessions no_redis plain short_passwords (draws 0) "eve@example.com" "staple" browser
        new_auth)
      s1_empty

logged_in-Served : Served no_redis plain short_passwords logged_in
logged_in-Served =
    Requests.next registered-Served
      (Requests.logged_in (draws 0) "eve@example.com" "staple" browser registered s1_unused)

logged_out_everywhere_example :
    belongs_to "u3"
      (Sessions.get "s1" (logout_all no_redis plain short_passwords "u3" logged_in).1.sessions)
    ≡ false
logged_out_everywhere_example =
    logged_out_everywhere no_redis plain short_passwords "u3" "s1" logged_in-Served u3_named

abbrev eve : User
eve = record {
  id = "u3";
  email = "eve@example.com";
  password_hash = some "staple";
  role = short_passwords.default_user_role;
  is_active = true;
  email_verified = false;
  created_at = 0;
}

eve_filed : Dict.lookup "u3" registered.users.users ≡ some eve
unfolding register Users.create_user Users.create_email_verification_token Users.record_audit
    Dict.lookup Dict.insert string_eq normalize Users.hash_if_given truthy hash_password
eve_filed = refl

one_account_per_email_example : eve.id ≡ "u3"
one_account_per_email_example =
    one_account_per_email no_redis plain short_passwords "u3" "u3" eve eve registered-Served
      eve_filed eve_filed refl
