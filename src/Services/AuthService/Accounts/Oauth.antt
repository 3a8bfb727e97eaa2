-- ===== src/Services/AuthService/Accounts/Oauth.antt =====
-- `AuthService.login_with_oauth` and the account that an identity leads to.
use enterprise_llm_assistant.Core.Exceptions.{authorization}
use enterprise_llm_assistant.Core.Settings.{Settings, or_default}
use enterprise_llm_assistant.Clients.Redis.{Redis}
use enterprise_llm_assistant.Prelude.{
  String, true, false, not, Option, none, some, ◌≡◌, arith, inl, inr, ◌&&◌,
}
use enterprise_llm_assistant.Prelude.{string_eq, pair_eq, Option-cases}
use enterprise_llm_assistant.Prelude.Text.{truthy, or_empty, first}
use enterprise_llm_assistant.Prelude.Dict
use enterprise_llm_assistant.Prelude.Exec.{Result, ok, raised}
use enterprise_llm_assistant.Security.AuthLimits.{normalize}
use enterprise_llm_assistant.Security.Authentication.{Bcrypt}
use enterprise_llm_assistant.Security.Sessions
use enterprise_llm_assistant.Security.Sessions.{Session}
use enterprise_llm_assistant.Security.Sessions.Index.{get-delete_self}
use enterprise_llm_assistant.Repositories.Users
use enterprise_llm_assistant.Repositories.Users.{User, OauthAccount}
use enterprise_llm_assistant.Services.AuthService.{
  Auth, Draws, ClientMeta, OauthUserInfo, sanitize_user, resolve_session,
}
use enterprise_llm_assistant.Services.AuthService.Login.{get_by_email-state}
use enterprise_llm_assistant.Services.AuthService.Accounts.{login_with_oauth}

module _ (R : Redis) (b : Bcrypt) (cfg : Settings) where
  module _ (d : Draws) (info : OauthUserInfo) (meta : ClientMeta) (s : Auth R.State) where
    abbrev pub after_oauth : Auth R.State
    after_oauth = (login_with_oauth R b cfg d info meta s).1

    abbrev pub linked : Option OauthAccount
    linked = Users.get_oauth_account info.provider info.provider_user_id s.users

    -- An OAuth login with an identity that is linked to an account that is missing or disabled is refused,
    -- and changes nothing.
    pub linked_but_disabled :
        (account : OauthAccount)
        → linked ≡ some account
        → ((user : User)
            → Dict.lookup account.user_id s.users.users ≡ some user
            → user.is_active ≡ false)
        → login_with_oauth R b cfg d info meta s ≡ (raised (authorization "Account is disabled"), s)
    unfolding login_with_oauth Users.get_by_id
    linked_but_disabled account there disabled =
        elim (Option-cases (Dict.lookup account.user_id s.users.users)) [
          | inl e ↦ ground arith
          | inr (user, e) ↦ ground (arith, disabled user)
        ]

    -- The account of the e-mail address that the provider reports.
    abbrev pub owner : Result (Option User)
    owner = (Users.get_by_email (normalize (or_empty info.email)) s.users).0

    -- An OAuth login with an identity that is not linked yet, and with an e-mail address that is an
    -- account's and that the provider has not verified, returns that account and a session id, and links
    -- the identity to the account.
    pub unverified_identity_let_in :
        (user : User)
        → linked ≡ none
        → info.email_verified ≡ false
        → truthy (normalize (or_empty info.email)) ≡ true
        → owner ≡ ok (some user)
        → ((login_with_oauth R b cfg d info meta s).0 ≡ ok (sanitize_user user, d.session_id))
          × (Users.get_oauth_account info.provider info.provider_user_id after_oauth.users
              ≡ some (record {
                user_id = user.id;
                provider = info.provider;
                provider_user_id = info.provider_user_id;
                email = info.email;
              }))
    unfolding login_with_oauth Sessions.create Users.get_oauth_account Users.link_oauth_account
        Users.record_audit
    unverified_identity_let_in user unlinked unverified named there =
        let account : OauthAccount = record {
          user_id = user.id;
          provider = info.provider;
          provider_user_id = info.provider_user_id;
          email = info.email;
        } in
        let key : String × String = (info.provider, info.provider_user_id) in
        ground (
          arith,
          get_by_email-state R b cfg (normalize (or_empty info.email)) s.users,
          Dict.lookup-insert key key account s.users.oauth,
        )

    -- The session that the login makes for a user.
    abbrev pub made_for : User → Session
    made_for user = record {
      content = record {
        user_id = user.id;
        role = user.role;
        email = user.email;
        ip = meta.ip_address;
        user_agent = first 512 (or_empty meta.user_agent);
      };
      created_at = d.now;
    }

    -- An OAuth login with an identity that is not linked yet, and with the e-mail address of a disabled
    -- account that is verified already or that the provider has not verified, returns that account and a
    -- session id, and the session can be read afterwards: the check for a disabled account is made only for
    -- an identity that is linked already.
    pub disabled_account_let_in :
        (user : User)
        → linked ≡ none
        → truthy (normalize (or_empty info.email)) ≡ true
        → owner ≡ ok (some user)
        → (info.email_verified && not user.email_verified) ≡ false
        → user.is_active ≡ false
        → ((login_with_oauth R b cfg d info meta s).0 ≡ ok (sanitize_user user, d.session_id))
          × (Sessions.get d.session_id after_oauth.sessions ≡ some (made_for user))
    unfolding login_with_oauth Sessions.create Sessions.get
    disabled_account_let_in user unlinked named there settled disabled =
        let stored : Sessions.StoredSession = record {
          session = made_for user;
          ttl = or_default none cfg.session_ttl_seconds;
        } in
        ground (
          arith,
          get_by_email-state R b cfg (normalize (or_empty info.email)) s.users,
          Dict.lookup-insert d.session_id d.session_id stored s.sessions.sessions,
        )

  -- A session with an id that is not empty, of a disabled or missing account, resolves to no user, and is gone afterwards.
  pub resolve_disabled :
      (sid : String) (session : Session) (s : Auth R.State)
      → Sessions.get sid s.sessions ≡ some session
      → ((user : User)
          → Dict.lookup session.content.user_id s.users.users ≡ some user
          → user.is_active ≡ false)
      → truthy sid ≡ true
      → ((resolve_session R b cfg (some sid) s).0 ≡ ok none)
        × (Sessions.get sid (resolve_session R b cfg (some sid) s).1.sessions ≡ none)
  unfolding resolve_session Users.get_by_id
  resolve_disabled sid session s there disabled named =
      elim (Option-cases (Dict.lookup session.content.user_id s.users.users)) [
        | inl e ↦ ground (arith, get-delete_self sid s.sessions)
        | inr (user, e) ↦ ground (arith, disabled user, get-delete_self sid s.sessions)
      ]
