-- ===== src/Security/Browser.antt =====
-- app/security/cookies.py and app/security/csrf.py, with what a handler reads of a request. A token that is drawn is an
-- argument.
pub mod Csrf
use Prim.Native.Char.{code}
use enterprise_llm_assistant.Core.Exceptions.{http, type_error}
use enterprise_llm_assistant.Core.Settings.{Settings}
use enterprise_llm_assistant.Prelude.{ℕ, String, Bool, true, false, ◌&&◌, Option}
use enterprise_llm_assistant.Prelude.{string_eq, ltb, ◌==◌, if◌then◌else◌}
use enterprise_llm_assistant.Prelude.Text.{truthy, or_empty}
use enterprise_llm_assistant.Prelude.Dict
use enterprise_llm_assistant.Prelude.Dict.{Dict}
use enterprise_llm_assistant.Prelude.Exec.{Result, ok, raised, Exec}

-- The cookies, the headers by name as Starlette finds them, and the address of the client.
pub record Request : Type 0 where
  pub cookies : Dict String String
  pub header : String → Option String
  pub host : Option String

-- A cookie that a response sets, or deletes.
pub data Cookie : Type 0 where
  kept : String → String → ℕ → Bool → Bool → String → Cookie
  deleted : String → Cookie

unfoldable pub is_ascii : String → Bool
is_ascii String.[] = true
is_ascii (String.◌∷◌ c s) = ltb (code c) 128 && is_ascii s

-- `hmac.compare_digest`
compare_digest : String → String → Result Bool
unfolding is_ascii
compare_digest a b =
    if is_ascii a && is_ascii b
    then ok (a == b)
    else raised (type_error "comparing strings with non-ASCII characters is not supported")

unfoldable pub validate_csrf : {S : Type 0} → Settings → Request → Exec S Unit
unfolding compare_digest
validate_csrf cfg request s =
    let cookie_token = or_empty (Dict.lookup cfg.csrf_cookie_name request.cookies) in
    let header_token = or_empty (request.header cfg.csrf_header_name) in
    if truthy cookie_token && truthy header_token
    then elim (compare_digest cookie_token header_token) [
      | raised e ↦ (raised e, s)
      | ok same ↦ if same then (ok tt, s) else (raised (http 403 "CSRF validation failed"), s)
    ]
    else (raised (http 403 "CSRF validation failed"), s)

module _ (cfg : Settings) where
  unfoldable pub session_cookie : String → Cookie
  session_cookie session_id =
      kept cfg.session_cookie_name session_id cfg.session_ttl_seconds true cfg.session_cookie_secure
        cfg.session_cookie_samesite

  unfoldable pub csrf_cookie : String → Cookie
  csrf_cookie token =
      kept cfg.csrf_cookie_name token cfg.session_ttl_seconds false cfg.session_cookie_secure
        cfg.session_cookie_samesite
