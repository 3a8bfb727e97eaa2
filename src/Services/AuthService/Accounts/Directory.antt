-- ===== src/Services/AuthService/Accounts/Directory.antt =====
-- The user dicts of `AuthService` under one request.
use enterprise_llm_assistant.Core.Settings.{Settings}
use enterprise_llm_assistant.Clients.Redis.{Redis}
use Prim.Native.String.{count}
use enterprise_llm_assistant.Prelude.{String, true, false, Option, none, some, ◌≡◌, arith}
use enterprise_llm_assistant.Prelude.{string_eq, ltb}
use enterprise_llm_assistant.Prelude.Text.{truthy, or_empty}
use enterprise_llm_assistant.Core.Exceptions.{Exception}
use enterprise_llm_assistant.Security.AuthLimits.{normalize}
use enterprise_llm_assistant.Prelude.{◌&&◌, not}
use enterprise_llm_assistant.Prelude.Exec.{ok, raised}
use enterprise_llm_assistant.Security.Authentication.{Bcrypt}
use enterprise_llm_assistant.Repositories.Users
use enterprise_llm_assistant.Repositories.Users.{User, OauthAccount}
use enterprise_llm_assistant.Services.AuthService.Login.{get_by_email-state}
use enterprise_llm_assistant.Services.AuthService.{
  Auth, Draws, ClientMeta, login, register, logout, resolve_session, OauthUserInfo,
}
use enterprise_llm_assistant.Services.AuthService.Accounts.{
  login_with_oauth, oauth_user, verify_email, request_password_reset, reset_password,
}

-- The two dicts are the same.
abbrev pub SameDicts : Users.Users → Users.Users → Type 0
SameDicts u v = (u.users ≡ v.users) × (u.by_email ≡ v.by_email)

module _ (R : Redis) (b : Bcrypt) (cfg : Settings) where
  pub login-SameDicts :
      (d : Draws) (email password : String) (meta : ClientMeta) (s : Auth R.State)
      → SameDicts s.users (login R b cfg d email password meta s).1.users
  unfolding login Users.record_audit
  login-SameDicts d email password meta s = ground (arith, get_by_email-state R b cfg email s.users)

  pub logout-SameDicts :
      (session_id user_id email : Option String) (meta : ClientMeta) (s : Auth R.State)
      → SameDicts s.users (logout R b cfg session_id user_id email meta s).1.users
  unfolding logout Users.record_audit
  logout-SameDicts session_id user_id email meta s = ground arith

  pub resolve_session-users :
      (session_id : Option String) (s : Auth R.State)
      → (resolve_session R b cfg session_id s).1.users ≡ s.users
  unfolding resolve_session
  resolve_session-users session_id s = ground arith

  pub request_password_reset-SameDicts :
      (d : Draws) (email : String) (s : Auth R.State)
      → SameDicts s.users (request_password_reset R b cfg d email s).1.users
  unfolding request_password_reset Users.record_audit Users.create_password_reset_token
  request_password_reset-SameDicts d email s =
      ground (arith, get_by_email-state R b cfg email s.users)

  pub register-SameDicts :
      (d : Draws) (email password : String) (meta : ClientMeta) (s : Auth R.State)
      → ltb (count password) cfg.auth_min_password_length ≡ false
      → SameDicts
          (Users.create_user b d.uuid d.salt d.now email
            (some password)
            cfg.default_user_role
            false
            s.users).1
          (register R b cfg d email password meta s).1.users
  unfolding register Users.record_audit Users.create_email_verification_token
  register-SameDicts d email password meta s long = ground arith

  pub register-too_short :
      (d : Draws) (email password : String) (meta : ClientMeta) (s : Auth R.State)
      → ltb (count password) cfg.auth_min_password_length ≡ true
      → (register R b cfg d email password meta s).1 ≡ s
  unfolding register
  register-too_short d email password meta s short = ground arith

  module _ (d : Draws) (token : String) (s : Auth R.State) where
    abbrev pub email_confirmed : Users.Users
    email_confirmed = (Users.consume_email_verification_token d.now token s.users).1

    pub email_confirmed-SameDicts : SameDicts s.users email_confirmed
    unfolding Users.consume_email_verification_token
    email_confirmed-SameDicts = ground arith

    pub verify_email-SameDicts :
        (user_id : String)
        → (Users.consume_email_verification_token d.now token s.users).0 ≡ ok (some user_id)
        → truthy user_id ≡ true
        → SameDicts
            (Users.set_email_verified user_id email_confirmed).1
            (verify_email R b cfg d token s).1.users
    unfolding verify_email Users.record_audit
    verify_email-SameDicts user_id e named = ground arith

    pub verify_email-unnamed :
        (user_id : String)
        → (Users.consume_email_verification_token d.now token s.users).0 ≡ ok (some user_id)
        → truthy user_id ≡ false
        → SameDicts email_confirmed (verify_email R b cfg d token s).1.users
    unfolding verify_email
    verify_email-unnamed user_id e unnamed = ground arith

    pub verify_email-refused :
        (Users.consume_email_verification_token d.now token s.users).0 ≡ ok none
        → SameDicts email_confirmed (verify_email R b cfg d token s).1.users
    unfolding verify_email
    verify_email-refused e = ground arith

    pub verify_email-failed :
        (x : Exception)
        → (Users.consume_email_verification_token d.now token s.users).0 ≡ raised x
        → SameDicts email_confirmed (verify_email R b cfg d token s).1.users
    unfolding verify_email
    verify_email-failed x e = ground arith

    abbrev pub reset_used : Users.Users
    reset_used = (Users.consume_password_reset_token d.now token s.users).1

    pub reset_used-SameDicts : SameDicts s.users reset_used
    unfolding Users.consume_password_reset_token
    reset_used-SameDicts = ground arith

    module _ (new_password : String) where
      pub reset_password-SameDicts :
          (user_id : String)
          → (Users.consume_password_reset_token d.now token s.users).0 ≡ ok (some user_id)
          → truthy user_id ≡ true
          → ltb (count new_password) cfg.auth_min_password_length ≡ false
          → SameDicts
              (Users.set_password b d.salt user_id new_password reset_used).1
              (reset_password R b cfg d token new_password s).1.users
      unfolding reset_password Users.record_audit
      reset_password-SameDicts user_id e named long = ground arith

      pub reset_password-unnamed :
          (user_id : String)
          → (Users.consume_password_reset_token d.now token s.users).0 ≡ ok (some user_id)
          → truthy user_id ≡ false
          → ltb (count new_password) cfg.auth_min_password_length ≡ false
          → SameDicts reset_used (reset_password R b cfg d token new_password s).1.users
      unfolding reset_password
      reset_password-unnamed user_id e unnamed long = ground arith

      pub reset_password-refused :
          (Users.consume_password_reset_token d.now token s.users).0 ≡ ok none
          → ltb (count new_password) cfg.auth_min_password_length ≡ false
          → SameDicts reset_used (reset_password R b cfg d token new_password s).1.users
      unfolding reset_password
      reset_password-refused e long = ground arith

      pub reset_password-failed :
          (x : Exception)
          → (Users.consume_password_reset_token d.now token s.users).0 ≡ raised x
          → ltb (count new_password) cfg.auth_min_password_length ≡ false
          → SameDicts reset_used (reset_password R b cfg d token new_password s).1.users
      unfolding reset_password
      reset_password-failed x e long = ground arith

      pub reset_password-too_short :
          ltb (count new_password) cfg.auth_min_password_length ≡ true
          → SameDicts s.users (reset_password R b cfg d token new_password s).1.users
      unfolding reset_password
      reset_password-too_short short = ground arith

  abbrev pub account_of : OauthUserInfo → Auth R.State → Option OauthAccount
  account_of info s = Users.get_oauth_account info.provider info.provider_user_id s.users

  module _ (d : Draws) (info : OauthUserInfo) (meta : ClientMeta) (s : Auth R.State) where
    pub login_with_oauth-SameDicts :
        SameDicts
          (oauth_user R b cfg d info (account_of info s) s).1.users
          (login_with_oauth R b cfg d info meta s).1.users
    unfolding login_with_oauth Users.record_audit
    login_with_oauth-SameDicts = ground arith

    pub oauth_user-linked :
        (account : OauthAccount) → (oauth_user R b cfg d info (some account) s).1 ≡ s
    unfolding oauth_user
    oauth_user-linked account = ground arith

    abbrev pub oauth_email : String
    oauth_email = normalize (or_empty info.email)

    abbrev pub after_link : Users.Users
    after_link = (oauth_user R b cfg d info none s).1.users

    pub oauth_user-created :
        truthy oauth_email ≡ true
        → (Users.get_by_email oauth_email s.users).0 ≡ ok none
        → SameDicts
            (Users.create_user b d.uuid d.salt d.now oauth_email none cfg.default_user_role
              info.email_verified s.users).1
            after_link
    unfolding oauth_user Users.link_oauth_account
    oauth_user-created named e = ground (arith, get_by_email-state R b cfg oauth_email s.users)

    pub oauth_user-confirmed :
        (user : User)
        → truthy oauth_email ≡ true
        → (Users.get_by_email oauth_email s.users).0 ≡ ok (some user)
        → (info.email_verified && not user.email_verified) ≡ true
        → SameDicts (Users.set_email_verified user.id s.users).1 after_link
    unfolding oauth_user Users.link_oauth_account
    oauth_user-confirmed user named e t =
        ground (arith, get_by_email-state R b cfg oauth_email s.users)

    pub oauth_user-found :
        (user : User)
        → (Users.get_by_email oauth_email s.users).0 ≡ ok (some user)
        → (info.email_verified && not user.email_verified) ≡ false
        → SameDicts s.users after_link
    unfolding oauth_user Users.link_oauth_account
    oauth_user-found user e t = ground (arith, get_by_email-state R b cfg oauth_email s.users)

    pub oauth_user-failed :
        (x : Exception)
        → (Users.get_by_email oauth_email s.users).0 ≡ raised x
        → SameDicts s.users after_link
    unfolding oauth_user Users.link_oauth_account
    oauth_user-failed x e = ground (arith, get_by_email-state R b cfg oauth_email s.users)

    pub oauth_user-unnamed : truthy oauth_email ≡ false → SameDicts s.users after_link
    unfolding oauth_user Users.link_oauth_account
    oauth_user-unnamed e = ground arith
