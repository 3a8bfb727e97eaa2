-- ===== src/Services/AuthService/Accounts/Consistency.antt =====
-- `AuthService` under any sequence of requests: the two user dicts stay consistent.
use Prim.Native.String.{count}
use enterprise_llm_assistant.Core.Settings.{Settings}
use enterprise_llm_assistant.Clients.Redis.{Redis}
use enterprise_llm_assistant.Prelude.{
  String, true, false, ◌&&◌, not, Option, none, some, ◌≡◌, refl, arith, inl, inr,
}
use enterprise_llm_assistant.Prelude.{string_eq, ltb, Bool-cases}
use enterprise_llm_assistant.Prelude.Text.{truthy}
use enterprise_llm_assistant.Prelude.Dict
use enterprise_llm_assistant.Prelude.Exec.{Result, ok, raised}
use enterprise_llm_assistant.Security.Authentication.{Bcrypt}
use enterprise_llm_assistant.Repositories.Users
use enterprise_llm_assistant.Repositories.Users.{User, OauthAccount}
use enterprise_llm_assistant.Repositories.Users.Directory.{
  IsConsistent, IsConsistent-no_users, create_user-IsConsistent, set_password-IsConsistent,
  set_email_verified-IsConsistent,
}
use enterprise_llm_assistant.Repositories.Users.Runs.{same-IsConsistent}
use enterprise_llm_assistant.Services.AuthService.{
  Auth, Draws, ClientMeta, register, logout_all, OauthUserInfo,
}
use enterprise_llm_assistant.Services.AuthService.Accounts.{
  login_with_oauth, oauth_user, verify_email, reset_password,
}
use enterprise_llm_assistant.Services.AuthService.Accounts.Directory
use enterprise_llm_assistant.Services.AuthService.Accounts.Directory.{SameDicts}
use enterprise_llm_assistant.Services.AuthService.Accounts.Requests
use enterprise_llm_assistant.Services.AuthService.Accounts.Requests.{Request, Served, me-state}

-- The invariant is about the two dicts alone.
keep : (u : Users.Users) {v : Users.Users} → SameDicts u v → IsConsistent u → IsConsistent v
keep u (e, f) h = same-IsConsistent e f h

module _ (R : Redis) (b : Bcrypt) (cfg : Settings) where
  register-IsConsistent :
      (d : Draws) (email password : String) (meta : ClientMeta) (s : Auth R.State)
      → Dict.lookup d.uuid s.users.users ≡ none
      → truthy d.uuid ≡ true
      → IsConsistent s.users
      → IsConsistent (register R b cfg d email password meta s).1.users
  register-IsConsistent d email password meta s unused named h =
      elim (Bool-cases (ltb (count password) cfg.auth_min_password_length)) [
        | inl short ↦ rw (Directory.register-too_short R b cfg d email password meta s short) h
        | inr long ↦ keep _ (Directory.register-SameDicts R b cfg d email password meta s long) (
            create_user-IsConsistent b d.uuid d.salt d.now email (some password)
              cfg.default_user_role false unused named h)
      ]

  module _ (d : Draws) (token : String) (s : Auth R.State) (h : IsConsistent s.users) where
    email_confirmed-IsConsistent : IsConsistent (Directory.email_confirmed R b cfg d token s)
    email_confirmed-IsConsistent =
        keep s.users (Directory.email_confirmed-SameDicts R b cfg d token s) h

    verify_of-IsConsistent :
        (r : Result (Option String))
        → (Users.consume_email_verification_token d.now token s.users).0 ≡ r
        → IsConsistent (verify_email R b cfg d token s).1.users
    verify_of-IsConsistent (ok (some user_id)) e = elim (Bool-cases (truthy user_id)) [
      | inl named ↦
          keep (Users.set_email_verified user_id (Directory.email_confirmed R b cfg d token s)).1
            (Directory.verify_email-SameDicts R b cfg d token s user_id e named)
            (set_email_verified-IsConsistent user_id email_confirmed-IsConsistent)
      | inr unnamed ↦
          keep (Directory.email_confirmed R b cfg d token s)
            (Directory.verify_email-unnamed R b cfg d token s user_id e unnamed)
            email_confirmed-IsConsistent
    ]
    verify_of-IsConsistent (ok none) e =
        keep (Directory.email_confirmed R b cfg d token s)
          (Directory.verify_email-refused R b cfg d token s e) email_confirmed-IsConsistent
    verify_of-IsConsistent (raised x) e =
        keep (Directory.email_confirmed R b cfg d token s)
          (Directory.verify_email-failed R b cfg d token s x e) email_confirmed-IsConsistent

    reset_used-IsConsistent : IsConsistent (Directory.reset_used R b cfg d token s)
    reset_used-IsConsistent = keep s.users (Directory.reset_used-SameDicts R b cfg d token s) h

    module _ (new_password : String) where
      reset_long-IsConsistent :
          ltb (count new_password) cfg.auth_min_password_length ≡ false
          → (r : Result (Option String))
          → (Users.consume_password_reset_token d.now token s.users).0 ≡ r
          → IsConsistent (reset_password R b cfg d token new_password s).1.users
      reset_long-IsConsistent long (ok (some user_id)) e = elim (Bool-cases (truthy user_id)) [
        | inl named ↦
            keep
              (Users.set_password b d.salt user_id new_password
                (Directory.reset_used R b cfg d token s)).1
              (Directory.reset_password-SameDicts R b cfg d token s new_password user_id e named
                long)
              (set_password-IsConsistent b d.salt user_id new_password reset_used-IsConsistent)
        | inr unnamed ↦
            keep (Directory.reset_used R b cfg d token s)
              (Directory.reset_password-unnamed R b cfg d token s new_password user_id e unnamed
                long)
              reset_used-IsConsistent
      ]
      reset_long-IsConsistent long (ok none) e =
          keep (Directory.reset_used R b cfg d token s)
            (Directory.reset_password-refused R b cfg d token s new_password e long)
            reset_used-IsConsistent
      reset_long-IsConsistent long (raised x) e =
          keep (Directory.reset_used R b cfg d token s)
            (Directory.reset_password-failed R b cfg d token s new_password x e long)
            reset_used-IsConsistent

      reset_password-IsConsistent :
          IsConsistent (reset_password R b cfg d token new_password s).1.users
      reset_password-IsConsistent =
          elim (Bool-cases (ltb (count new_password) cfg.auth_min_password_length)) [
            | inl short ↦
                keep s.users
                  (Directory.reset_password-too_short R b cfg d token s new_password short) h
            | inr long ↦
                reset_long-IsConsistent long
                  (Users.consume_password_reset_token d.now token s.users).0 refl
          ]

  module _ (d : Draws) (info : OauthUserInfo) (meta : ClientMeta) (s : Auth R.State)
      (h : IsConsistent s.users) (unused : Dict.lookup d.uuid s.users.users ≡ none)
      (named : truthy d.uuid ≡ true) where
    abbrev oauth_email : String
    oauth_email = Directory.oauth_email R b cfg d info meta s

    link_of-IsConsistent :
        truthy oauth_email ≡ true
        → (r : Result (Option User)) → (Users.get_by_email oauth_email s.users).0 ≡ r
        → IsConsistent (oauth_user R b cfg d info none s).1.users
    link_of-IsConsistent given (ok none) e =
        keep
          (Users.create_user b d.uuid d.salt d.now oauth_email none cfg.default_user_role
            info.email_verified s.users).1
          (Directory.oauth_user-created R b cfg d info meta s given e)
          (create_user-IsConsistent b d.uuid d.salt d.now oauth_email none cfg.default_user_role
            info.email_verified unused named h)
    link_of-IsConsistent given (ok (some user)) e =
        elim (Bool-cases (info.email_verified && not user.email_verified)) [
          | inl t ↦
              keep (Users.set_email_verified user.id s.users).1
                (Directory.oauth_user-confirmed R b cfg d info meta s user given e t)
                (set_email_verified-IsConsistent user.id h)
          | inr t ↦ keep s.users (Directory.oauth_user-found R b cfg d info meta s user e t) h
        ]
    link_of-IsConsistent given (raised x) e =
        keep s.users (Directory.oauth_user-failed R b cfg d info meta s x e) h

    oauth_user-IsConsistent :
        (linked : Option OauthAccount) → IsConsistent (oauth_user R b cfg d info linked s).1.users
    oauth_user-IsConsistent (some account) =
        rw (Directory.oauth_user-linked R b cfg d info meta s account) h
    oauth_user-IsConsistent none = elim (Bool-cases (truthy oauth_email)) [
      | inl given ↦ link_of-IsConsistent given (Users.get_by_email oauth_email s.users).0 refl
      | inr t ↦ keep s.users (Directory.oauth_user-unnamed R b cfg d info meta s t) h
    ]

    login_with_oauth-IsConsistent : IsConsistent (login_with_oauth R b cfg d info meta s).1.users
    login_with_oauth-IsConsistent =
        keep (oauth_user R b cfg d info (Directory.account_of R b cfg info s) s).1.users
          (Directory.login_with_oauth-SameDicts R b cfg d info meta s)
          (oauth_user-IsConsistent (Directory.account_of R b cfg info s))

  Request-IsConsistent :
      {s t : Auth R.State} → Request R b cfg s t → IsConsistent s.users → IsConsistent t.users
  unfolding logout_all
  Request-IsConsistent (Requests.registered d email password meta s unused named) h =
      register-IsConsistent d email password meta s unused named h
  Request-IsConsistent (Requests.logged_in d email password meta s fresh) h =
      keep s.users (Directory.login-SameDicts R b cfg d email password meta s) h
  Request-IsConsistent (Requests.logged_in_by_oauth d info meta s fresh unused named) h =
      login_with_oauth-IsConsistent d info meta s h unused named
  Request-IsConsistent (Requests.logged_out session_id user_id email meta s) h =
      keep s.users (Directory.logout-SameDicts R b cfg session_id user_id email meta s) h
  Request-IsConsistent (Requests.all_logged_out user_id s) h = h
  Request-IsConsistent (Requests.resolved session_id s) h =
      rw (Directory.resolve_session-users R b cfg session_id s) h
  Request-IsConsistent (Requests.asked_for_me user_id s) h = rw (me-state R b cfg user_id s) h
  Request-IsConsistent (Requests.verified d token s) h =
      verify_of-IsConsistent d token s h
        (Users.consume_email_verification_token d.now token s.users).0 refl
  Request-IsConsistent (Requests.reset_requested d email s) h =
      keep s.users (Directory.request_password_reset-SameDicts R b cfg d email s) h
  Request-IsConsistent (Requests.reset d token new_password s) h =
      reset_password-IsConsistent d token s h new_password

  Served-IsConsistent : {s : Auth R.State} → Served R b cfg s → IsConsistent s.users
  Served-IsConsistent (Requests.started s new e) = rw (new) IsConsistent-no_users
  Served-IsConsistent (Requests.next r st) = Request-IsConsistent st (Served-IsConsistent r)

  -- In a state that any sequence of requests leads to from no user and no session, where a drawn
  -- session id is not in use and a drawn user id is not in use and not empty, two accounts with the same
  -- e-mail address are the same account.
  pub one_account_per_email :
      (i j : String) (u v : User) {s : Auth R.State}
      → Served R b cfg s
      → Dict.lookup i s.users.users ≡ some u
      → Dict.lookup j s.users.users ≡ some v
      → u.email ≡ v.email
      → i ≡ j
  one_account_per_email i j u v r here there same =
      let h = Served-IsConsistent r in ground (arith, h.filed i u here, h.filed j v there)
