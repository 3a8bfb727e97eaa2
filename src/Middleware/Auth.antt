-- ===== src/Middleware/Auth.antt =====
-- app/middleware/auth.py over AuthService. The library jose is a parameter, which gives the claims of a token that it
-- accepts.
use enterprise_llm_assistant.Core.Exceptions.{authentication, http}
use enterprise_llm_assistant.Core.Settings.{Settings}
use enterprise_llm_assistant.Clients.Redis.{Redis}
use enterprise_llm_assistant.Prelude.{String, Bool, true, Option, none, some}
use enterprise_llm_assistant.Prelude.{string_eq, if◌then◌else◌}
use enterprise_llm_assistant.Prelude.Text.{truthy, or_empty}
use enterprise_llm_assistant.Prelude.Dict
use enterprise_llm_assistant.Prelude.Exec.{pure, raise, asks, ◌>>=◌, ◌>>◌}
use enterprise_llm_assistant.Security.Authentication.{Bcrypt, require_permission}
use enterprise_llm_assistant.Security.Browser.{Request}
use enterprise_llm_assistant.Services.AuthService.{M, Principal, resolve_session}

pub record Claims : Type 0 where
  pub sub : Option String
  pub role : Option String
  pub user_id : Option String

-- The dict of the user that a handler is given.
pub record CurrentUser : Type 0 where
  pub subject : Option String
  pub role : String
  pub user_id : Option String
  pub email : Option String
  pub email_verified : Bool

abbrev pub of_session : Principal → CurrentUser
of_session p = record {
  subject = some p.subject;
  role = p.role;
  user_id = some p.user_id;
  email = some p.email;
  email_verified = p.email_verified;
}

abbrev of_claims : Claims → CurrentUser
of_claims claims = record {
  subject = claims.sub;
  role = elim claims.role [ none ↦ "viewer" | some role ↦ role ];
  user_id = claims.user_id;
  email = claims.sub;
  email_verified = true;
}

module _ (R : Redis) (b : Bcrypt) (cfg : Settings) (decode : String → Option Claims) where
  -- What follows if no session answers: `decode_access_token`, if there is a token.
  unfoldable pub from_token : Option String → M R b cfg CurrentUser
  from_token none = raise (http 401 "Authentication required")
  from_token (some token) = elim (decode token) [
    | none ↦ raise (authentication "Invalid or expired token")
    | some claims ↦ pure (of_claims claims)
  ]

  or_token : Option String → Option Principal → M R b cfg CurrentUser
  unfolding from_token
  or_token token none = from_token token
  or_token token (some principal) = pure (of_session principal)

  -- `get_current_user`, with the bearer token of the request.
  unfoldable pub get_current_user : Request → Option String → M R b cfg CurrentUser
  unfolding or_token
  get_current_user request token =
      let session_id = Dict.lookup cfg.session_cookie_name request.cookies in
      if truthy (or_empty session_id)
      then (do principal ← resolve_session R b cfg session_id; or_token token principal)
      else from_token token

  -- `require_auth_permission`
  unfoldable pub require_auth_permission : String → Request → Option String → M R b cfg CurrentUser
  require_auth_permission permission request token = do
    user ← get_current_user request token
    asks (λ s. require_permission user.role permission)
    pure user
