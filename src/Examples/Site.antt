-- ===== src/Examples/Site.antt =====
-- A browser at the handlers of the accounts.
use Prim.Native.String.{◌++◌ as ◌<>◌}
use enterprise_llm_assistant.Core.Exceptions.{app}
use enterprise_llm_assistant.Core.Settings.{defaults}
use enterprise_llm_assistant.Api.Auth.{Site, SiteDraws, login, address_of}
use enterprise_llm_assistant.Api.Auth.Guards.{
  credentials, submit, IsRefused, csrf_guards, login-get_current_user,
}
use enterprise_llm_assistant.Api.Oauth.{OauthProvider, Callback, oauth_start, oauth_callback}
use enterprise_llm_assistant.Api.Oauth.Replay.{replay_refused}
use enterprise_llm_assistant.Middleware.Auth.{Claims, of_session, get_current_user}
use enterprise_llm_assistant.Prelude.{
  String, true, false, Option, none, some, [], ◌∷◌, ◌≡◌, ◌≢◌, refl, sym, ap, ◌∙◌,
}
use enterprise_llm_assistant.Prelude.{string_eq, ◌==◌}
use enterprise_llm_assistant.Prelude.Text.{strip, lower, truthy, or_empty}
use enterprise_llm_assistant.Prelude.Dict
use enterprise_llm_assistant.Prelude.Dict.{Dict}
use enterprise_llm_assistant.Prelude.Exec.{ok, raised}
use enterprise_llm_assistant.Repositories.Users
use enterprise_llm_assistant.Security.AuthLimits
use enterprise_llm_assistant.Security.AuthLimits.{normalize, active_redis, assert_not_locked}
use enterprise_llm_assistant.Security.Authentication.{verify_password}
use enterprise_llm_assistant.Security.Browser.{
  Request, validate_csrf, session_cookie, csrf_cookie, is_ascii,
}
use enterprise_llm_assistant.Services.AuthService.{principal_of, sanitize_user, password_matches}
use enterprise_llm_assistant.Services.AuthService.Login.{lookup_user}
use enterprise_llm_assistant.Examples.Setup.{no_redis, plain, ada, fresh_auth, draws}

abbrev site : Site Unit
site = record { auth = fresh_auth; limiter = record { redis = none; buckets = [] } }

-- The header is that of the CSRF token.
abbrev from_page : Request
from_page = record { cookies = ("csrf_token", "t1") ∷ []; header = λ name. some "t1"; host = none }

abbrev forged : Request
forged = record from_page { header = λ name. some "t2" }

abbrev logged_in : Request
logged_in = record from_page { cookies = ("session_id", "s1") ∷ [] }

abbrev site_draws : SiteDraws
site_draws = record { service = draws 0; checked_at = 0; csrf = "t3" }

abbrev no_tokens : String → Option Claims
no_tokens token = none

abbrev address : String
address = "Ada@example.com"

forged_unmatched :
    (token : String)
    → truthy token ≡ true
    → Dict.lookup defaults.csrf_cookie_name forged.cookies ≡ some token
    → forged.header defaults.csrf_header_name ≢ some token
unfolding Dict.lookup string_eq or_empty
forged_unmatched token given in_cookie in_header =
    let differ : true ≡ false = ap (λ o. or_empty o == "t1") (in_cookie ∙ sym in_header) in
    absurd cc

csrf_guards_example :
    IsRefused no_redis plain defaults no_tokens (credentials address "correct horse") forged site (
      submit no_redis plain defaults no_tokens site_draws
        (credentials address "correct horse")
        forged
        site)
csrf_guards_example =
    csrf_guards no_redis plain defaults no_tokens site_draws (credentials address "correct horse")
      forged site forged_unmatched

page_passes : validate_csrf defaults from_page site ≡ (ok tt, site)
unfolding validate_csrf is_ascii or_empty Dict.lookup string_eq truthy
page_passes = refl

first_call :
    (AuthLimits.check no_redis defaults 0
      ("login:" <> address_of from_page <> ":" <> normalize address)
      site.limiter).0
    ≡ ok tt
unfolding AuthLimits.check active_redis Dict.lookup string_eq
first_call = refl

ada_let_in :
    (assert_not_locked no_redis defaults 0 (normalize address) fresh_auth.lockout).0 ≡ ok tt
unfolding assert_not_locked active_redis Dict.lookup
ada_let_in = refl

ada_found : lookup_user no_redis plain defaults (normalize address) fresh_auth ≡ ok (some ada)
unfolding Users.get_by_email normalize strip lower truthy string_eq Dict.lookup
ada_found = refl

ada_filed : Dict.lookup "u1" fresh_auth.users.users ≡ some ada
unfolding Dict.lookup string_eq
ada_filed = refl

ada_accepts : password_matches plain "correct horse" ada ≡ true
unfolding password_matches verify_password truthy string_eq
ada_accepts = refl

id_named : truthy "s1" ≡ true
unfolding truthy
id_named = refl

cookie_brought : Dict.lookup "session_id" logged_in.cookies ≡ some "s1"
unfolding Dict.lookup string_eq
cookie_brought = refl

login-get_current_user_example :
    let (r, u) =
      login no_redis plain defaults no_tokens site_draws address "correct horse" from_page site in
    (r
      ≡ ok (record {
        content = sanitize_user ada;
        cookies = session_cookie defaults "s1" ∷ csrf_cookie defaults "t3" ∷ [];
      }))
    × ((get_current_user no_redis plain defaults no_tokens logged_in none u.auth).0
        ≡ ok (of_session (principal_of ada)))
login-get_current_user_example =
    login-get_current_user no_redis plain defaults no_tokens site_draws address "correct horse"
      from_page logged_in none site ada page_passes first_call ada_let_in ada_found ada_filed
      ada_accepts refl id_named cookie_brought

-- A provider that knows one user.
abbrev known_provider : OauthProvider
known_provider = record {
  is_configured = true;
  build_authorize_url = λ state uri. uri;
  exchange_code = λ sent uri. ok (record {
    provider = "google";
    provider_user_id = "g1";
    email = some "ada@example.com";
    email_verified = true;
    name = none;
  });
}

abbrev providers : Dict String OauthProvider
providers = ("google", known_provider) ∷ []

abbrev started : Site Unit
started = (oauth_start no_redis plain defaults providers "st1" "google" site).1

abbrev sent_back : Callback
sent_back = record { code = some "c1"; state = some "st1"; error = none }

all_there :
    (truthy (or_empty none) ≡ false)
    × (truthy (or_empty (some "c1")) ≡ true)
    × (truthy (or_empty (some "st1")) ≡ true)
unfolding truthy or_empty
all_there = (refl, refl, refl)

replay_refused_example :
    let t =
      (oauth_callback no_redis plain defaults providers site_draws "google" from_page sent_back
        started).1 in
    oauth_callback no_redis plain defaults providers site_draws "google" forged sent_back t
    ≡ (raised (app "Invalid OAuth state" 400), t)
replay_refused_example =
    replay_refused no_redis plain defaults providers site_draws site_draws "google" "google"
      from_page forged sent_back sent_back started all_there all_there refl
