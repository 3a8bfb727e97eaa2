-- ===== src/Services/AuthService/Accounts.antt =====
-- app/services/auth_service.py, the second half: verification, password reset and OAuth login.
pub mod Laws
pub mod Oauth
pub mod Requests
pub mod Directory
pub mod Consistency
use enterprise_llm_assistant.Core.Exceptions.{authentication, authorization}
use enterprise_llm_assistant.Core.Settings.{Settings}
use enterprise_llm_assistant.Clients.Redis.{Redis}
use Prim.Native.String.{count}
use enterprise_llm_assistant.Prelude.{String, Bool, true, false, not, ◌&&◌, Option, none, some}
use enterprise_llm_assistant.Prelude.{if◌then◌else◌, ltb}
use enterprise_llm_assistant.Prelude.Text.{truthy, or_empty}
use enterprise_llm_assistant.Prelude.Exec.{Exec, pure, raise, raise_if, gets, modify, ◌>>=◌, ◌>>◌}
use enterprise_llm_assistant.Security.AuthLimits.{normalize}
use enterprise_llm_assistant.Security.Authentication.{Bcrypt}
use enterprise_llm_assistant.Security.Sessions
use enterprise_llm_assistant.Repositories.Users
use enterprise_llm_assistant.Repositories.Users.{User, OauthAccount}
use enterprise_llm_assistant.Services.AuthService.{
  M, Draws, ClientMeta, SafeUser, OauthUserInfo, sanitize_user, event, no_meta, on_users,
  on_sessions, audit, create_session, too_short,
}

-- An identifier that may be missing; the empty one counts as missing.
abbrev present : Option String → Option String
present none = none
present (some text) = if truthy text then some text else none

module _ (R : Redis) (b : Bcrypt) (cfg : Settings) where
  known : Option User → M R b cfg SafeUser
  known none = raise (authentication "User not found")
  known (some user) = pure (sanitize_user user)

  unfoldable pub me : String → M R b cfg SafeUser
  unfolding known
  me user_id = do user ← gets (λ s. Users.get_by_id user_id s.users); known user

  verified_user : String → Option User → M R b cfg SafeUser
  verified_user user_id none = raise (authentication "User not found")
  verified_user user_id (some user) = do
    audit (event "email_verified" (some user_id) (some user.email) no_meta none)
    pure (sanitize_user user)

  verify_consumed : Option String → M R b cfg SafeUser
  unfolding verified_user
  verify_consumed none = raise (authentication "Invalid or expired verification token")
  verify_consumed (some user_id) = do
    user ← on_users (Users.set_email_verified user_id)
    verified_user user_id user

  unfoldable pub verify_email : Draws → String → M R b cfg SafeUser
  unfolding verify_consumed
  verify_email d token = do
    user_id ← on_users (Users.consume_email_verification_token d.now token)
    verify_consumed (present user_id)

  request_for : Draws → Option User → M R b cfg (Option String)
  request_for d none = pure none
  request_for d (some user) = do
    token ← on_users (Users.create_password_reset_token d.token d.now user.id 1)
    audit (event "password_reset_requested" (some user.id) (some user.email) no_meta none)
    pure (some token)

  unfoldable pub request_password_reset : Draws → String → M R b cfg (Option String)
  unfolding request_for
  request_password_reset d email = do user ← on_users (Users.get_by_email email); request_for d user

  abbrev email_of : Option User → Option String
  email_of none = none
  email_of (some user) = some user.email

  reset_consumed : Draws → String → Option String → M R b cfg Unit
  reset_consumed d new_password none = raise (authentication "Invalid or expired reset token")
  reset_consumed d new_password (some user_id) = do
    on_users (Users.set_password b d.salt user_id new_password)
    _ ← on_sessions (Sessions.delete_all_for_user user_id)
    user ← gets (λ s. Users.get_by_id user_id s.users)
    audit (event "password_reset_completed" (some user_id) (email_of user) no_meta none)

  unfoldable pub reset_password : Draws → String → String → M R b cfg Unit
  unfolding reset_consumed
  reset_password d token new_password = do
    raise_if (ltb (count new_password) cfg.auth_min_password_length) (too_short R b cfg)
    user_id ← on_users (Users.consume_password_reset_token d.now token)
    reset_consumed d new_password (present user_id)

  -- The user of an identity that is linked already.
  linked_user : Option User → M R b cfg User
  linked_user none = raise (authorization "Account is disabled")
  linked_user (some user) =
      if user.is_active then pure user else raise (authorization "Account is disabled")

  -- `await self._users.set_email_verified(user["id"]) or user`
  verified_or : User → M R b cfg User
  verified_or user = do
    verified ← on_users (Users.set_email_verified user.id)
    pure (elim verified [ none ↦ user | some u ↦ u ])

  -- The user of an e-mail address, who is created if there is none.
  user_for_email : Draws → OauthUserInfo → String → Option User → M R b cfg User
  unfolding verified_or
  user_for_email d info email none =
      on_users (
        Users.create_user b d.uuid d.salt d.now email none cfg.default_user_role
          info.email_verified)
  user_for_email d info email (some user) =
      if info.email_verified && not user.email_verified then verified_or user else pure user

  link_new : Draws → OauthUserInfo → M R b cfg User
  unfolding user_for_email
  link_new d info =
      let email = normalize (or_empty info.email) in
      do
        raise_if (not (truthy email)) (authentication "OAuth provider did not return an email")
        found ← on_users (Users.get_by_email email)
        user ← user_for_email d info email found
        modify (λ s. record s {
          users =
              Users.link_oauth_account user.id info.provider info.provider_user_id info.email
                s.users;
        })
        pure user

  pub oauth_user : Draws → OauthUserInfo → Option OauthAccount → M R b cfg User
  unfolding linked_user link_new
  oauth_user d info none = link_new d info
  oauth_user d info (some account) = do
    user ← gets (λ s. Users.get_by_id account.user_id s.users)
    linked_user user

  unfoldable pub login_with_oauth :
      Draws → OauthUserInfo → ClientMeta → M R b cfg (SafeUser × String)
  unfolding oauth_user create_session
  login_with_oauth d info meta = do
    linked ← gets (λ s. Users.get_oauth_account info.provider info.provider_user_id s.users)
    user ← oauth_user d info linked
    session_id ← create_session R b cfg d user meta
    audit (event "oauth_login" (some user.id) (some user.email) meta (some info.provider))
    pure (sanitize_user user, session_id)
