-- ===== src/Services/AuthService.antt =====
-- app/services/auth_service.py over the in-memory user repository and session store and the lockout store.
-- What an operation draws (identifiers, tokens, a salt, clock readings) is its argument `Draws`.
pub mod Login
pub mod BruteForce
pub mod Registration
pub mod Accounts
use Prim.Native.String.{◌++◌ as ◌<>◌, count}
use enterprise_llm_assistant.Core.Exceptions.{Exception, authentication, authorization, value_error}
use enterprise_llm_assistant.Core.Settings.{Settings}
use enterprise_llm_assistant.Clients.Redis.{Redis}
use enterprise_llm_assistant.Prelude.{ℕ, String, Bool, true, false, ◌&&◌, Option, none, some}
use enterprise_llm_assistant.Prelude.{if◌then◌else◌, ltb}
use enterprise_llm_assistant.Prelude.Text.{truthy, or_empty, first, decimal}
use enterprise_llm_assistant.Prelude.Exec.{
  Result, ok, raised, Exec, pure, raise, raise_if, gets, modify, ◌>>=◌, ◌>>◌,
}
use enterprise_llm_assistant.Security.AuthLimits.{
  LockoutStore, normalize, assert_not_locked, record_failure, clear_failures,
}
use enterprise_llm_assistant.Security.Authentication.{Bcrypt, verify_password}
use enterprise_llm_assistant.Security.Sessions
use enterprise_llm_assistant.Security.Sessions.{SessionStore, Session}
use enterprise_llm_assistant.Repositories.Users
use enterprise_llm_assistant.Repositories.Users.{User, AuditEvent}

pub record Auth (C : Type 0) : Type 0 where
  pub users : Users.Users
  pub sessions : SessionStore
  pub lockout : LockoutStore C

pub record Draws : Type 0 where
  pub uuid : String
  pub salt : String
  pub token : String
  pub session_id : String
  pub now : ℕ
  pub checked_at : ℕ
  pub failed_at : ℕ

-- The caller's address and browser.
pub record ClientMeta : Type 0 where
  pub ip_address : Option String
  pub user_agent : Option String

-- What `_sanitize_user` returns.
pub record SafeUser : Type 0 where
  pub id : String
  pub email : String
  pub role : String
  pub is_active : Bool
  pub email_verified : Bool

-- What `resolve_session` returns.
pub record Principal : Type 0 where
  pub subject : String
  pub role : String
  pub user_id : String
  pub email : String
  pub email_verified : Bool

-- app/security/oauth_providers.py
pub record OauthUserInfo : Type 0 where
  pub provider : String
  pub provider_user_id : String
  pub email : Option String
  pub email_verified : Bool
  pub name : Option String

abbrev pub sanitize_user : User → SafeUser
sanitize_user user = record {
  id = user.id;
  email = user.email;
  role = user.role;
  is_active = user.is_active;
  email_verified = user.email_verified;
}

abbrev pub principal_of : User → Principal
principal_of user = record {
  subject = user.email;
  role = user.role;
  user_id = user.id;
  email = user.email;
  email_verified = user.email_verified;
}

-- The arguments of `record_audit`.
abbrev pub event : String → Option String → Option String → ClientMeta → Option String → AuditEvent
event event_type user_id email meta detail = record {
  event_type = event_type;
  user_id = user_id;
  email = email;
  ip_address = meta.ip_address;
  user_agent = meta.user_agent;
  detail = detail;
}

abbrev pub no_meta : ClientMeta
no_meta = record { ip_address = none; user_agent = none }

-- `not user.get("password_hash") or not verify_password(password, user["password_hash"])`, negated.
unfoldable pub password_matches : Bcrypt → String → User → Bool
password_matches b password user = elim user.password_hash [
  | none ↦ false
  | some hashed ↦ truthy hashed && verify_password b password hashed
]

module _ {C A : Type 0} where
  -- Methods of the parts, as methods of the service.
  abbrev pub on_users : Exec Users.Users A → Exec (Auth C) A
  on_users m s = ((m s.users).0, record s { users = (m s.users).1 })

  abbrev pub on_sessions : Exec SessionStore A → Exec (Auth C) A
  on_sessions m s = ((m s.sessions).0, record s { sessions = (m s.sessions).1 })

  abbrev pub on_lockout : Exec (LockoutStore C) A → Exec (Auth C) A
  on_lockout m s = ((m s.lockout).0, record s { lockout = (m s.lockout).1 })

abbrev pub audit : {C : Type 0} → AuditEvent → Exec (Auth C) Unit
audit e s = (ok tt, record s { users = Users.record_audit e s.users })

module _ (R : Redis) (b : Bcrypt) (cfg : Settings) where
  abbrev pub M : Type 0 → Type 0
  M A = Exec (Auth R.State) A

  unfoldable pub too_short : Exception
  too_short =
      authentication
        ("Password must be at least " <> decimal cfg.auth_min_password_length <> " characters")

  -- `except ValueError as exc: raise AuthenticationException(str(exc))`
  unfoldable pub as_authentication : {A : Type 0} → Result A → Result A
  as_authentication (raised (value_error message)) = raised (authentication message)
  as_authentication r = r

  unfoldable pub create_session : Draws → User → ClientMeta → M String
  create_session d user meta = on_sessions (
      Sessions.create cfg d.now d.session_id
        (record {
          user_id = user.id;
          role = user.role;
          email = user.email;
          ip = meta.ip_address;
          user_agent = first 512 (or_empty meta.user_agent);
        })
        none)

  unfoldable pub register : Draws → String → String → ClientMeta → M (SafeUser × String)
  unfolding as_authentication
  register d email password meta = do
    raise_if (ltb (count password) cfg.auth_min_password_length) too_short
    user ← (λ s.
        let (r, s') =
          on_users
            (Users.create_user b d.uuid d.salt d.now email (some password) cfg.default_user_role
              false)
            s in
        (as_authentication r, s'))
    token ← on_users (Users.create_email_verification_token d.token d.now user.id 24)
    audit (event "register" (some user.id) (some user.email) meta none)
    pure (sanitize_user user, token)

  reject : Draws → String → ClientMeta → M (SafeUser × String)
  reject d email meta = do
    on_lockout (record_failure R cfg d.failed_at email)
    audit (event "login_failed" none (some (normalize email)) meta none)
    raise (authentication "Invalid email or password")

  accept : Draws → String → User → ClientMeta → M (SafeUser × String)
  unfolding create_session
  accept d email user meta = do
    on_lockout (clear_failures R cfg email)
    session_id ← create_session d user meta
    audit (event "login_success" (some user.id) (some user.email) meta none)
    pure (sanitize_user user, session_id)

  -- `login` after the lookup of the user.
  decide_login : Draws → String → String → ClientMeta → Option User → M (SafeUser × String)
  unfolding reject accept
  decide_login d email password meta none = reject d email meta
  decide_login d email password meta (some user) =
      if password_matches b password user
      then (if user.is_active
          then accept d email user meta
          else raise (authorization "Account is disabled"))
      else reject d email meta

  unfoldable pub login : Draws → String → String → ClientMeta → M (SafeUser × String)
  unfolding decide_login
  login d email password meta = do
    on_lockout (assert_not_locked R cfg d.checked_at email)
    user ← on_users (Users.get_by_email email)
    decide_login d email password meta user

  delete_session : String → M Unit
  delete_session session_id =
      modify (λ s. record s { sessions = Sessions.delete session_id s.sessions })

  -- `if session_id: await self._sessions.delete(session_id)`
  delete_if_given : Option String → M Unit
  unfolding delete_session
  delete_if_given none = pure tt
  delete_if_given (some session_id) =
      if truthy session_id then delete_session session_id else pure tt

  unfoldable pub logout : Option String → Option String → Option String → ClientMeta → M Unit
  unfolding delete_if_given
  logout session_id user_id email meta = do
    delete_if_given session_id
    audit (event "logout" user_id email meta none)

  unfoldable pub logout_all : String → M ℕ
  logout_all user_id = on_sessions (Sessions.delete_all_for_user user_id)

  resolve_user : String → Option User → M (Option Principal)
  unfolding delete_session
  resolve_user session_id none = do delete_session session_id; pure none
  resolve_user session_id (some user) =
      if user.is_active
      then (do on_sessions (Sessions.touch cfg session_id none); pure (some (principal_of user)))
      else (do delete_session session_id; pure none)

  resolve_data : String → Option Session → M (Option Principal)
  unfolding resolve_user
  resolve_data session_id none = pure none
  resolve_data session_id (some session) = do
    user ← gets (λ s. Users.get_by_id session.content.user_id s.users)
    resolve_user session_id user

  unfoldable pub resolve_session : Option String → M (Option Principal)
  unfolding resolve_data
  resolve_session none = pure none
  resolve_session (some session_id) =
      if truthy session_id
      then (do
        found ← gets (λ s. Sessions.get session_id s.sessions)
        resolve_data session_id found)
      else pure none
