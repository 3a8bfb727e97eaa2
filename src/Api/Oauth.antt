-- ===== src/Api/Oauth.antt =====
-- The OAuth routes of app/api/auth.py, with `OAuthProviderRegistry` of app/security/oauth_providers.py. A provider is a
-- parameter: whether it is configured, its URL, and what it answers to a code.
pub mod Replay
use Prim.Native.Char.{code}
use Prim.Native.String.{◌++◌ as ◌<>◌}
use enterprise_llm_assistant.Core.Exceptions.{app}
use enterprise_llm_assistant.Core.Settings.{Settings}
use enterprise_llm_assistant.Clients.Redis.{Redis}
use enterprise_llm_assistant.Api.Auth.{Site, SiteDraws, Reply, client_meta}
use enterprise_llm_assistant.Prelude.{
  String, Bool, true, false, ◌&&◌, ◌||◌, not, Option, none, some, List, [], ◌∷◌,
}
use enterprise_llm_assistant.Prelude.{string_eq, ◌==◌, eqb, if◌then◌else◌}
use enterprise_llm_assistant.Prelude.Text.{truthy, or_empty}
use enterprise_llm_assistant.Prelude.Dict
use enterprise_llm_assistant.Prelude.Dict.{Dict}
use enterprise_llm_assistant.Prelude.Exec.{
  Result, ok, raised, Exec, pure, raise_if, asks, ◌>>=◌, ◌>>◌,
}
use enterprise_llm_assistant.Security.Authentication.{Bcrypt}
use enterprise_llm_assistant.Security.Browser.{Request, session_cookie, csrf_cookie}
use enterprise_llm_assistant.Security.Sessions
use enterprise_llm_assistant.Security.Sessions.{OauthState}
use enterprise_llm_assistant.Services.AuthService.{Auth, OauthUserInfo, on_sessions}
use enterprise_llm_assistant.Services.AuthService.Accounts.{login_with_oauth}

pub record OauthProvider : Type 0 where
  pub is_configured : Bool
  pub build_authorize_url : String → String → String
  pub exchange_code : String → String → Result OauthUserInfo

-- `OAuthProviderRegistry.get`
unfoldable pub get_provider : String → Dict String OauthProvider → Result OauthProvider
get_provider name registry = elim (Dict.lookup name registry) [
  | none ↦ raised (app ("Unknown OAuth provider '" <> name <> "'") 404)
  | some provider ↦
      if provider.is_configured
      then ok provider
      else raised (app ("OAuth provider '" <> name <> "' is not configured") 503)
]

unfoldable pub list_configured : Dict String OauthProvider → List String
list_configured [] = []
list_configured ((name, provider) ∷ registry) =
    let rest = list_configured registry in if provider.is_configured then name ∷ rest else rest

-- `s.rstrip("/")`
unfoldable pub without_slashes : String → String
without_slashes String.[] = ""
without_slashes (String.◌∷◌ c s) =
    let rest = without_slashes s in
    if not (truthy rest) && eqb (code c) 47 then "" else String.◌∷◌ c rest

unfoldable pub provider_redirect_uri : Settings → String → String
provider_redirect_uri cfg provider =
    without_slashes cfg.app_public_url <> "/api/v1/auth/oauth/" <> provider <> "/callback"

-- What the provider sends back with the browser.
pub record Callback : Type 0 where
  pub code : Option String
  pub state : Option String
  pub error : Option String

module _ (R : Redis) (b : Bcrypt) (cfg : Settings) (registry : Dict String OauthProvider) where
  abbrev pub S : Type 0
  S = Site R.State

  abbrev pub on_auth : {A : Type 0} → Exec (Auth R.State) A → Exec S A
  on_auth m s = ((m s.auth).0, record s { auth = (m s.auth).1 })

  -- `oauth_start`, with the state that is drawn; the URL that it redirects to.
  unfoldable pub oauth_start : String → String → Exec S String
  oauth_start state provider = do
    oauth_provider ← asks (λ s. get_provider provider registry)
    let redirect_uri = provider_redirect_uri cfg provider
    on_auth (
        on_sessions (
          Sessions.set_oauth_state cfg state
            (record { provider = provider; redirect_uri = redirect_uri }) none))
    pure (oauth_provider.build_authorize_url state redirect_uri)

  -- `stored.get("redirect_uri") or provider_redirect_uri(provider)`
  redirect_of : String → OauthState → String
  redirect_of provider stored =
      if truthy stored.redirect_uri then stored.redirect_uri else provider_redirect_uri cfg provider

  -- The state that was stored, if it is one of the provider.
  stored_for : String → Option OauthState → Result OauthState
  stored_for provider none = raised (app "Invalid OAuth state" 400)
  stored_for provider (some stored) =
      if stored.provider == provider then ok stored else raised (app "Invalid OAuth state" 400)

  -- The login, once the state was accepted.
  enter : SiteDraws → String → Request → String → OauthState → Exec S (Reply Unit)
  unfolding redirect_of
  enter d provider request sent stored = do
    oauth_provider ← asks (λ s. get_provider provider registry)
    info ← asks (λ s. oauth_provider.exchange_code sent (redirect_of provider stored))
    made ← on_auth (login_with_oauth R b cfg d.service info (client_meta request))
    pure
        (record { content = tt; cookies = session_cookie cfg made.1 ∷ csrf_cookie cfg d.csrf ∷ [] })

  unfoldable pub oauth_callback : SiteDraws → String → Request → Callback → Exec S (Reply Unit)
  unfolding stored_for enter
  oauth_callback d provider request back = do
    raise_if (truthy (or_empty back.error)) (app ("OAuth error: " <> or_empty back.error) 400)
    raise_if (not (truthy (or_empty back.code)) || not (truthy (or_empty back.state)))
        (app "Missing OAuth code or state" 400)
    popped ← on_auth (on_sessions (Sessions.pop_oauth_state (or_empty back.state)))
    stored ← asks (λ s. stored_for provider popped)
    enter d provider request (or_empty back.code) stored
