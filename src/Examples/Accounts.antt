-- ===== src/Examples/Accounts.antt =====
-- Password resets and OAuth logins on two accounts, one of them disabled.
use enterprise_llm_assistant.Core.Settings.{defaults, or_default}
use enterprise_llm_assistant.Prelude.{
  ◌≤◌, String, true, false, none, some, [], ◌∷◌, ◌≡◌, ◌≢◌, refl, arith,
}
use enterprise_llm_assistant.Prelude.{string_eq, pair_eq}
use enterprise_llm_assistant.Prelude.Text.{strip, lower, truthy, or_empty}
use enterprise_llm_assistant.Prelude.Dict
use enterprise_llm_assistant.Prelude.Exec.{ok}
use enterprise_llm_assistant.Security.AuthLimits.{normalize}
use enterprise_llm_assistant.Security.Authentication.{hash_password}
use enterprise_llm_assistant.Security.Sessions
use enterprise_llm_assistant.Security.Sessions.{Session, SessionStore}
use enterprise_llm_assistant.Security.Sessions.Index.{belongs_to}
use enterprise_llm_assistant.Security.Sessions.Runs
use enterprise_llm_assistant.Security.Sessions.Runs.{Reached, Reached-IsIndexed}
use enterprise_llm_assistant.Repositories.Users
use enterprise_llm_assistant.Repositories.Users.{User, OauthAccount, TokenData}
use enterprise_llm_assistant.Services.AuthService.{
  Auth, Draws, OauthUserInfo, sanitize_user, password_matches,
}
use enterprise_llm_assistant.Services.AuthService.Accounts.{reset_password, login_with_oauth}
use enterprise_llm_assistant.Services.AuthService.Accounts.Laws.{
  after_reset, reset_password-revokes,
}
use enterprise_llm_assistant.Services.AuthService.Accounts.Oauth.{
  after_oauth, unverified_identity_let_in, disabled_account_let_in, made_for,
}
use enterprise_llm_assistant.Examples.Setup.{
  no_redis, plain, plain-IsLawful, ada, bob, fresh_auth, draws, browser,
}

-- A session of each user.
abbrev ada_session : Session
ada_session = record {
  content = record { user_id = "u1"; role = "user"; email = ada.email; ip = none; user_agent = "" };
  created_at = 0;
}

abbrev bob_session : Session
bob_session = record {
  content = record { user_id = "u2"; role = "user"; email = bob.email; ip = none; user_agent = "" };
  created_at = 0;
}

abbrev two_sessions : SessionStore
two_sessions =
    (Sessions.create defaults 0 "s9" bob_session.content none
      (Sessions.create defaults 0 "s8" ada_session.content none Sessions.empty_store).1).1

s8_fresh : Dict.lookup "s8" Sessions.empty_store.sessions ≡ none
unfolding Dict.lookup
s8_fresh = refl

s9_fresh :
    Dict.lookup "s9"
      (Sessions.create defaults 0 "s8" ada_session.content none Sessions.empty_store).1.sessions
    ≡ none
unfolding Dict.lookup Dict.insert string_eq Sessions.create truthy or_default
s9_fresh = refl

two_sessions-Reached : Reached defaults two_sessions
two_sessions-Reached =
    Runs.next
      (Runs.next Runs.started
        (Runs.created 0 "s8" ada_session.content none Sessions.empty_store s8_fresh))
      (Runs.created 0 "s9" bob_session.content none _ s9_fresh)

abbrev reset_entry : TokenData
reset_entry = record { user_id = "u1"; expires_at = 1_000; used = false }

abbrev resetting : Auth Unit
resetting = record fresh_auth {
  users = record fresh_auth.users { reset_tokens = ("r1", reset_entry) ∷ [] };
  sessions = two_sessions;
}

reset_done :
    (reset_password no_redis plain defaults (draws 0) "r1" "new password" resetting).0 ≡ ok tt
unfolding reset_password Users.consume_password_reset_token Users.set_password Dict.lookup
    Dict.insert string_eq Sessions.delete_all_for_user Users.get_by_id hash_password truthy
    Users.record_audit
reset_done = refl

reset_password-revokes_example :
    (entry : TokenData) × (user : User) × (Dict.lookup "r1" resetting.users.reset_tokens
      ≡ some entry)
    × (entry.used ≡ false)
    × (0 ≤ entry.expires_at)
    × (Dict.lookup entry.user_id
          (after_reset no_redis plain defaults (draws 0) "r1" "new password" resetting).users.users
        ≡ some user)
    × (password_matches plain "new password" user ≡ true)
    × ((sid : String)
        → belongs_to entry.user_id (
            Sessions.get sid
              (after_reset no_redis plain defaults
                (draws 0)
                "r1"
                "new password"
                resetting).sessions)
          ≡ false)
    × ((again : Draws) (other : String)
        → (reset_password no_redis plain defaults again "r1" other
            (after_reset no_redis plain defaults (draws 0) "r1" "new password" resetting)).0
          ≢ ok tt)
reset_password-revokes_example =
    reset_password-revokes no_redis plain defaults (draws 0) "r1" "new password" resetting
      plain-IsLawful (Reached-IsIndexed two_sessions-Reached) reset_done

abbrev github : OauthUserInfo
github = record {
  provider = "github";
  provider_user_id = "42";
  email = some "Bob@example.com";
  email_verified = false;
  name = none;
}

abbrev github_link : OauthAccount
github_link = record {
  user_id = "u2";
  provider = "github";
  provider_user_id = "42";
  email = some "Bob@example.com";
}

abbrev linked_auth : Auth Unit
linked_auth = record fresh_auth {
  users = record fresh_auth.users { oauth = (("github", "42"), github_link) ∷ [] };
}

bob_linked : Users.get_oauth_account "github" "42" linked_auth.users ≡ some github_link
unfolding Users.get_oauth_account Dict.lookup pair_eq string_eq
bob_linked = refl

bob_filed : Dict.lookup "u2" fresh_auth.users.users ≡ some bob
unfolding Dict.lookup string_eq
bob_filed = refl

-- Whoever is filed as `u2` is disabled.
bob_disabled :
    (user : User) → Dict.lookup "u2" fresh_auth.users.users ≡ some user → user.is_active ≡ false
bob_disabled user p = ground (arith, bob_filed)

bob_unlinked : Users.get_oauth_account "github" "42" fresh_auth.users ≡ none
unfolding Users.get_oauth_account Dict.lookup
bob_unlinked = refl

bob_named : truthy (normalize (or_empty github.email)) ≡ true
unfolding truthy normalize or_empty strip lower
bob_named = refl

bob_owns :
    (Users.get_by_email (normalize (or_empty github.email)) fresh_auth.users).0 ≡ ok (some bob)
unfolding Users.get_by_email normalize or_empty strip lower truthy string_eq Dict.lookup
bob_owns = refl

disabled_account_let_in_example :
    ((login_with_oauth no_redis plain defaults (draws 0) github browser fresh_auth).0
      ≡ ok (sanitize_user bob, "s1"))
    × (Sessions.get "s1"
          (after_oauth no_redis plain defaults (draws 0) github browser fresh_auth).sessions
        ≡ some (made_for no_redis plain defaults (draws 0) github browser fresh_auth bob))
disabled_account_let_in_example =
    disabled_account_let_in no_redis plain defaults (draws 0) github browser fresh_auth bob
      bob_unlinked bob_named bob_owns refl refl

unverified_identity_let_in_example :
    ((login_with_oauth no_redis plain defaults (draws 0) github browser fresh_auth).0
      ≡ ok (sanitize_user bob, "s1"))
    × (Users.get_oauth_account "github" "42"
          (after_oauth no_redis plain defaults (draws 0) github browser fresh_auth).users
        ≡ some github_link)
unverified_identity_let_in_example =
    unverified_identity_let_in no_redis plain defaults (draws 0) github browser fresh_auth bob
      bob_unlinked refl bob_named bob_owns

abbrev live_auth : Auth Unit
live_auth = record fresh_auth { sessions = two_sessions }

bob_session_read : Sessions.get "s9" live_auth.sessions ≡ some bob_session
unfolding Sessions.get Sessions.create Dict.lookup Dict.insert string_eq truthy or_default
bob_session_read = refl

s9_named : truthy "s9" ≡ true
unfolding truthy
s9_named = refl
