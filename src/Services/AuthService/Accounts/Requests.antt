-- ===== src/Services/AuthService/Accounts/Requests.antt =====
-- `AuthService` as a process: any sequence of requests to its methods, and what it leaves in the
-- session store.
use enterprise_llm_assistant.Core.Settings.{Settings}
use enterprise_llm_assistant.Clients.Redis.{Redis}
use enterprise_llm_assistant.Prelude.{String, true, false, Option, none, some, ◌≡◌, refl, arith}
use enterprise_llm_assistant.Prelude.{string_eq}
use enterprise_llm_assistant.Prelude.Text.{truthy, first, or_empty}
use enterprise_llm_assistant.Prelude.Dict
use enterprise_llm_assistant.Prelude.Exec.{Result, ok, raised}
use enterprise_llm_assistant.Security.Authentication.{Bcrypt}
use enterprise_llm_assistant.Security.Sessions
use enterprise_llm_assistant.Security.Sessions.{SessionData, empty_store}
use enterprise_llm_assistant.Security.Sessions.Index.{
  IsIndexed, IsIndexed-empty_store, belongs_to, revoked_all, create-IsIndexed, touch-IsIndexed,
  delete-IsIndexed, delete_all_for_user-IsIndexed,
}
use enterprise_llm_assistant.Repositories.Users
use enterprise_llm_assistant.Repositories.Users.{User, no_users}
use enterprise_llm_assistant.Services.AuthService.{
  Auth, Draws, ClientMeta, login, register, logout, logout_all, resolve_session, OauthUserInfo,
}
use enterprise_llm_assistant.Services.AuthService.Accounts.{
  login_with_oauth, oauth_user, me, verify_email, request_password_reset, reset_password,
}
use enterprise_llm_assistant.Repositories.Users.{OauthAccount}

module _ (R : Redis) (b : Bcrypt) (cfg : Settings) where
  -- The data of a session that `create_session` stores.
  content_of : User → ClientMeta → SessionData
  content_of user meta = record {
    user_id = user.id;
    role = user.role;
    email = user.email;
    ip = meta.ip_address;
    user_agent = first 512 (or_empty meta.user_agent);
  }

  -- `login`, by the user that the e-mail address leads to.
  login_of-IsIndexed :
      (d : Draws) (email password : String) (meta : ClientMeta) (s : Auth R.State)
      → Dict.lookup d.session_id s.sessions.sessions ≡ none
      → IsIndexed s.sessions
      → (found : Result (Option User)) → (Users.get_by_email email s.users).0 ≡ found
      → IsIndexed (login R b cfg d email password meta s).1.sessions
  unfolding login content_of
  login_of-IsIndexed d email password meta s fresh h (ok (some user)) e =
      ground
        (arith, h, e, create-IsIndexed cfg d.now d.session_id (content_of user meta) none fresh h)
  login_of-IsIndexed d email password meta s fresh h (ok none) e = ground (arith, h, e)
  login_of-IsIndexed d email password meta s fresh h (raised x) e = ground (arith, h, e)

  pub register-sessions :
      (d : Draws) (email password : String) (meta : ClientMeta) (s : Auth R.State)
      → (register R b cfg d email password meta s).1.sessions ≡ s.sessions
  unfolding register
  register-sessions d email password meta s = ground arith

  logout-IsIndexed :
      (session_id user_id email : Option String) (meta : ClientMeta) (s : Auth R.State)
      → IsIndexed s.sessions
      → IsIndexed (logout R b cfg session_id user_id email meta s).1.sessions
  unfolding logout
  logout-IsIndexed none user_id email meta s h = h
  logout-IsIndexed (some session_id) user_id email meta s h =
      ground (arith, h, delete-IsIndexed session_id h)

  resolve_session-IsIndexed :
      (session_id : Option String) (s : Auth R.State)
      → IsIndexed s.sessions
      → IsIndexed (resolve_session R b cfg session_id s).1.sessions
  unfolding resolve_session
  resolve_session-IsIndexed none s h = h
  resolve_session-IsIndexed (some session_id) s h =
      ground (arith, h, delete-IsIndexed session_id h, touch-IsIndexed cfg session_id none h)

  pub me-state : (user_id : String) (s : Auth R.State) → (me R b cfg user_id s).1 ≡ s
  unfolding me
  me-state user_id s = ground arith

  verify_email-sessions :
      (d : Draws) (token : String) (s : Auth R.State)
      → (verify_email R b cfg d token s).1.sessions ≡ s.sessions
  unfolding verify_email
  verify_email-sessions d token s = ground arith

  request_password_reset-sessions :
      (d : Draws) (email : String) (s : Auth R.State)
      → (request_password_reset R b cfg d email s).1.sessions ≡ s.sessions
  unfolding request_password_reset
  request_password_reset-sessions d email s = ground arith

  pub oauth_user-sessions :
      (d : Draws) (info : OauthUserInfo) (linked : Option OauthAccount) (s : Auth R.State)
      → (oauth_user R b cfg d info linked s).1.sessions ≡ s.sessions
  unfolding oauth_user
  oauth_user-sessions d info none s = ground arith
  oauth_user-sessions d info (some account) s = ground arith

  -- `reset_password`, by the user that the token leads to.
  reset_of-IsIndexed :
      (d : Draws) (token new_password : String) (s : Auth R.State)
      → IsIndexed s.sessions
      → (r : Result (Option String))
      → (Users.consume_password_reset_token d.now token s.users).0 ≡ r
      → IsIndexed (reset_password R b cfg d token new_password s).1.sessions
  unfolding reset_password
  reset_of-IsIndexed d token new_password s h (ok (some user_id)) e =
      ground (arith, h, e, delete_all_for_user-IsIndexed user_id h)
  reset_of-IsIndexed d token new_password s h (ok none) e = ground (arith, h, e)
  reset_of-IsIndexed d token new_password s h (raised x) e = ground (arith, h, e)

  abbrev account_of : OauthUserInfo → Auth R.State → Option OauthAccount
  account_of info s = Users.get_oauth_account info.provider info.provider_user_id s.users

  -- `login_with_oauth`, by the user that the identity leads to.
  oauth_of-IsIndexed :
      (d : Draws) (info : OauthUserInfo) (meta : ClientMeta) (s : Auth R.State)
      → Dict.lookup d.session_id s.sessions.sessions ≡ none
      → IsIndexed s.sessions
      → (r : Result User) → (oauth_user R b cfg d info (account_of info s) s).0 ≡ r
      → IsIndexed (login_with_oauth R b cfg d info meta s).1.sessions
  unfolding login_with_oauth content_of
  oauth_of-IsIndexed d info meta s fresh h (ok user) e = ground (
    arith,
    h,
    e,
    oauth_user-sessions d info (account_of info s) s,
    create-IsIndexed cfg d.now d.session_id (content_of user meta) none fresh h,
  )
  oauth_of-IsIndexed d info meta s fresh h (raised x) e =
      ground (arith, h, e, oauth_user-sessions d info (account_of info s) s)

  -- One request. `new_session_id` and `uuid4` draw ids that are not in use, and `uuid4` none that is
  -- empty.
  pub data Request : Auth R.State → Auth R.State → Type 0 where
    registered :
        (d : Draws) (email password : String) (meta : ClientMeta) (s : Auth R.State)
        → Dict.lookup d.uuid s.users.users ≡ none
        → truthy d.uuid ≡ true
        → Request s (register R b cfg d email password meta s).1
    logged_in :
        (d : Draws) (email password : String) (meta : ClientMeta) (s : Auth R.State)
        → Dict.lookup d.session_id s.sessions.sessions ≡ none
        → Request s (login R b cfg d email password meta s).1
    logged_in_by_oauth :
        (d : Draws) (info : OauthUserInfo) (meta : ClientMeta) (s : Auth R.State)
        → Dict.lookup d.session_id s.sessions.sessions ≡ none
        → Dict.lookup d.uuid s.users.users ≡ none
        → truthy d.uuid ≡ true
        → Request s (login_with_oauth R b cfg d info meta s).1
    logged_out :
        (session_id user_id email : Option String) (meta : ClientMeta) (s : Auth R.State)
        → Request s (logout R b cfg session_id user_id email meta s).1
    all_logged_out :
        (user_id : String) (s : Auth R.State) → Request s (logout_all R b cfg user_id s).1
    resolved :
        (session_id : Option String) (s : Auth R.State)
        → Request s (resolve_session R b cfg session_id s).1
    asked_for_me : (user_id : String) (s : Auth R.State) → Request s (me R b cfg user_id s).1
    verified :
        (d : Draws) (token : String) (s : Auth R.State)
        → Request s (verify_email R b cfg d token s).1
    reset_requested :
        (d : Draws) (email : String) (s : Auth R.State)
        → Request s (request_password_reset R b cfg d email s).1
    reset :
        (d : Draws) (token new_password : String) (s : Auth R.State)
        → Request s (reset_password R b cfg d token new_password s).1

  -- The states that a process can have: it starts with no user and no session.
  pub data Served : Auth R.State → Type 0 where
    started : (s : Auth R.State) → s.users ≡ no_users → s.sessions ≡ empty_store → Served s
    next : {s t : Auth R.State} → Served s → Request s t → Served t

  Request-IsIndexed :
      {s t : Auth R.State} → Request s t → IsIndexed s.sessions → IsIndexed t.sessions
  unfolding logout_all
  Request-IsIndexed (registered d email password meta s unused named) h =
      rw (register-sessions d email password meta s) h
  Request-IsIndexed (logged_in d email password meta s fresh) h =
      login_of-IsIndexed d email password meta s fresh h (Users.get_by_email email s.users).0 refl
  Request-IsIndexed (logged_in_by_oauth d info meta s fresh unused named) h =
      oauth_of-IsIndexed d info meta s fresh h (oauth_user R b cfg d info (account_of info s) s).0
        refl
  Request-IsIndexed (logged_out session_id user_id email meta s) h =
      logout-IsIndexed session_id user_id email meta s h
  Request-IsIndexed (all_logged_out user_id s) h = delete_all_for_user-IsIndexed user_id h
  Request-IsIndexed (resolved session_id s) h = resolve_session-IsIndexed session_id s h
  Request-IsIndexed (asked_for_me user_id s) h = rw (me-state user_id s) h
  Request-IsIndexed (verified d token s) h = rw (verify_email-sessions d token s) h
  Request-IsIndexed (reset_requested d email s) h = rw (request_password_reset-sessions d email s) h
  Request-IsIndexed (reset d token new_password s) h =
      reset_of-IsIndexed d token new_password s h
        (Users.consume_password_reset_token d.now token s.users).0 refl

  Served-IsIndexed : {s : Auth R.State} → Served s → IsIndexed s.sessions
  Served-IsIndexed (started s new e) = rw (e) IsIndexed-empty_store
  Served-IsIndexed (next r st) = Request-IsIndexed st (Served-IsIndexed r)

  -- With the in-memory stores: after `logout_all` of a user whose id is not empty, in a state that any sequence of requests
  -- leads to from no user and no session, where a drawn session id is not in use and a drawn user id is
  -- not in use and not empty, no session of the user can be read.
  pub logged_out_everywhere :
      (user_id sid : String) {s : Auth R.State}
      → Served s
      → truthy user_id ≡ true
      → belongs_to user_id (Sessions.get sid (logout_all R b cfg user_id s).1.sessions) ≡ false
  unfolding logout_all
  logged_out_everywhere user_id sid r named = revoked_all user_id sid (Served-IsIndexed r) named
