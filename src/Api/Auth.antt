-- ===== src/Api/Auth.antt =====
-- app/api/auth.py but for its OAuth routes: the handlers of the accounts, with the cookies of their answers. What an
-- exception answers sets no cookie. Pydantic has validated a body before its handler runs.
pub mod Guards
use Prim.Native.String.{◌++◌ as ◌<>◌}
use enterprise_llm_assistant.Core.Exceptions.{app, authentication}
use enterprise_llm_assistant.Core.Settings.{Settings}
use enterprise_llm_assistant.Clients.Redis.{Redis}
use enterprise_llm_assistant.Middleware.Auth.{Claims, get_current_user}
use enterprise_llm_assistant.Prelude.{
  ℕ, String, Bool, true, false, ◌&&◌, ◌||◌, not, Option, none, some, List, [], ◌∷◌,
}
use enterprise_llm_assistant.Prelude.{string_eq, if◌then◌else◌}
use enterprise_llm_assistant.Prelude.Text.{truthy, or_empty}
use enterprise_llm_assistant.Prelude.Dict
use enterprise_llm_assistant.Prelude.Exec.{Exec, pure, raise, raise_if, ◌>>=◌, ◌>>◌}
use enterprise_llm_assistant.Security.AuthLimits
use enterprise_llm_assistant.Security.AuthLimits.{RateLimiter, normalize}
use enterprise_llm_assistant.Security.Authentication.{Bcrypt}
use enterprise_llm_assistant.Security.Browser.{
  Request, Cookie, deleted, validate_csrf, session_cookie, csrf_cookie,
}
use enterprise_llm_assistant.Services.AuthService
use enterprise_llm_assistant.Services.AuthService.{Auth, Draws, ClientMeta, SafeUser, Principal}
use enterprise_llm_assistant.Services.AuthService.Accounts

pub record Site (C : Type 0) : Type 0 where
  pub auth : Auth C
  pub limiter : RateLimiter C

-- The answer of a handler, and the cookies that go with it, first to last.
pub record Reply (A : Type 0) : Type 0 where
  pub content : A
  pub cookies : List Cookie

-- What a handler draws: what the service draws, the clock of the limiter and a CSRF token.
pub record SiteDraws : Type 0 where
  pub service : Draws
  pub checked_at : ℕ
  pub csrf : String

-- `_client_meta`
unfoldable pub client_meta : Request → ClientMeta
client_meta request = record { ip_address = request.host; user_agent = request.header "user-agent" }

-- `ip or 'unknown'`
unfoldable pub address_of : Request → String
address_of request = if truthy (or_empty request.host) then or_empty request.host else "unknown"

-- The `/me` answer.
pub record Me : Type 0 where
  pub id : Option String
  pub email : Option String
  pub role : String
  pub email_verified : Bool

module _ (R : Redis) (b : Bcrypt) (cfg : Settings) (decode : String → Option Claims) where
  abbrev pub S : Type 0
  S = Site R.State

  abbrev pub on_auth : {A : Type 0} → Exec (Auth R.State) A → Exec S A
  on_auth m s = ((m s.auth).0, record s { auth = (m s.auth).1 })

  abbrev pub limit : ℕ → String → Exec S Unit
  limit now key s = (
    (AuthLimits.check R cfg now key s.limiter).0,
    record s { limiter = (AuthLimits.check R cfg now key s.limiter).1 },
  )

  -- A token that only a development setup shows.
  abbrev shown_token : String → Option String
  shown_token token = if cfg.debug || cfg.auth_dev_token_enabled then some token else none

  unfoldable pub issue_csrf : SiteDraws → Exec S (Reply String)
  issue_csrf d = pure (record { content = d.csrf; cookies = csrf_cookie cfg d.csrf ∷ [] })

  unfoldable pub register :
      SiteDraws → String → String → Request → Exec S (Reply (SafeUser × Option String))
  unfolding client_meta address_of
  register d email password request = do
    validate_csrf cfg request
    limit d.checked_at ("register:" <> address_of request)
    made ←
        on_auth
          (AuthService.register R b cfg d.service (normalize email) password (client_meta request))
    pure (record { content = (made.0, shown_token made.1); cookies = csrf_cookie cfg d.csrf ∷ [] })

  unfoldable pub login : SiteDraws → String → String → Request → Exec S (Reply SafeUser)
  unfolding client_meta address_of
  login d email password request = do
    validate_csrf cfg request
    limit d.checked_at ("login:" <> address_of request <> ":" <> normalize email)
    made ←
        on_auth
          (AuthService.login R b cfg d.service (normalize email) password (client_meta request))
    pure (record {
      content = made.0;
      cookies = session_cookie cfg made.1 ∷ csrf_cookie cfg d.csrf ∷ [];
    })

  user_id_of : Option Principal → Option String
  user_id_of none = none
  user_id_of (some p) = some p.user_id

  email_of : Option Principal → Option String
  email_of none = none
  email_of (some p) = some p.email

  unfoldable pub logout : SiteDraws → Request → Exec S (Reply Unit)
  unfolding client_meta user_id_of email_of
  logout d request = do
    validate_csrf cfg request
    let session_id = Dict.lookup cfg.session_cookie_name request.cookies
    resolved ← on_auth (AuthService.resolve_session R b cfg session_id)
    on_auth (
        AuthService.logout R b cfg session_id (user_id_of resolved) (email_of resolved)
          (client_meta request))
    pure (record {
      content = tt;
      cookies =
          deleted cfg.session_cookie_name
          ∷ deleted cfg.csrf_cookie_name
          ∷ csrf_cookie cfg d.csrf
          ∷ [];
    })

  -- `user.get("email") or user.get("subject")`
  unfoldable pub me : Request → Option String → Exec S Me
  me request token = do
    user ← on_auth (get_current_user R b cfg decode request token)
    pure (record {
      id = user.user_id;
      email = if truthy (or_empty user.email) then user.email else user.subject;
      role = user.role;
      email_verified = user.email_verified;
    })

  unfoldable pub logout_all : SiteDraws → Request → Option String → Exec S (Reply ℕ)
  logout_all d request token = do
    user ← on_auth (get_current_user R b cfg decode request token)
    validate_csrf cfg request
    raise_if (not (truthy (or_empty user.user_id)))
        (authentication "Session-backed account required")
    count ← on_auth (AuthService.logout_all R b cfg (or_empty user.user_id))
    pure (record {
      content = count;
      cookies = deleted cfg.session_cookie_name ∷ csrf_cookie cfg d.csrf ∷ [];
    })

  unfoldable pub verify_email : SiteDraws → String → Request → Exec S SafeUser
  verify_email d token request = do
    validate_csrf cfg request
    on_auth (Accounts.verify_email R b cfg d.service token)

  unfoldable pub forgot_password : SiteDraws → String → Request → Exec S (Option String)
  unfolding address_of
  forgot_password d email request = do
    validate_csrf cfg request
    limit d.checked_at ("forgot:" <> address_of request)
    token ← on_auth (Accounts.request_password_reset R b cfg d.service (normalize email))
    pure (
        if truthy (or_empty token) && (cfg.debug || cfg.auth_dev_token_enabled)
        then token
        else none)

  unfoldable pub reset_password : SiteDraws → String → String → Request → Exec S Unit
  reset_password d token password request = do
    validate_csrf cfg request
    on_auth (Accounts.reset_password R b cfg d.service token password)

  -- `create_token`, with the token that jose makes.
  unfoldable pub create_token : (String → String → String) → String → String → Exec S String
  create_token encode subject role =
      if not cfg.auth_dev_token_enabled && not cfg.debug
      then raise (app "Dev token endpoint is disabled" 404)
      else pure (encode subject role)
