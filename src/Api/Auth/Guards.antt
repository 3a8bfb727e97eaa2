-- ===== src/Api/Auth/Guards.antt =====
-- What the handlers of the accounts let through.
use Prim.Native.String.{◌++◌ as ◌<>◌}
use enterprise_llm_assistant.Core.Exceptions.{Exception}
use enterprise_llm_assistant.Core.Settings.{Settings}
use enterprise_llm_assistant.Clients.Redis.{Redis}
use enterprise_llm_assistant.Middleware.Auth.{Claims, of_session, get_current_user}
use enterprise_llm_assistant.Prelude.{
  String, true, Option, some, [], ◌∷◌, ◌⊎◌, inl, inr, ◌≡◌, ◌≢◌, refl,
}
use enterprise_llm_assistant.Prelude.{string_eq}
use enterprise_llm_assistant.Prelude.Text.{truthy, or_empty}
use enterprise_llm_assistant.Prelude.Dict
use enterprise_llm_assistant.Prelude.Exec.{Result, ok, raised, Result-cases, Exec, pure, ◌>>=◌}
use enterprise_llm_assistant.Security.AuthLimits
use enterprise_llm_assistant.Security.AuthLimits.{normalize, assert_not_locked}
use enterprise_llm_assistant.Security.Authentication.{Bcrypt}
use enterprise_llm_assistant.Security.Browser.{Request, validate_csrf, session_cookie, csrf_cookie}
use enterprise_llm_assistant.Security.Browser.Csrf.{
  IsRefusal, cookie_token, header_token, validate_csrf-refuses,
}
use enterprise_llm_assistant.Services.AuthService.{password_matches, principal_of, sanitize_user}
use enterprise_llm_assistant.Services.AuthService.Login.{login-resolve_session, lookup_user}
use enterprise_llm_assistant.Repositories.Users.{User}
use enterprise_llm_assistant.Api.Auth.{
  Site, SiteDraws, register, login, logout, logout_all, on_auth, verify_email, forgot_password,
  reset_password, client_meta, address_of,
}

-- A form that a browser sends; a bearer token may come with `/logout-all`.
pub data Form : Type 0 where
  registration : String → String → Form
  credentials : String → String → Form
  farewell : Form
  farewell_everywhere : Option String → Form
  verification : String → Form
  forgotten : String → Form
  new_password : String → String → Form

module _ (R : Redis) (b : Bcrypt) (cfg : Settings) (decode : String → Option Claims) where
  -- The handler of a form, without what it answers.
  unfoldable pub submit : SiteDraws → Form → Request → Exec (Site R.State) Unit
  submit d (registration email password) request = do
    _ ← register R b cfg decode d email password request
    pure tt
  submit d (credentials email password) request = do
    _ ← login R b cfg decode d email password request
    pure tt
  submit d farewell request = do _ ← logout R b cfg decode d request; pure tt
  submit d (farewell_everywhere token) request = do
    _ ← logout_all R b cfg decode d request token
    pure tt
  submit d (verification token) request = do
    _ ← verify_email R b cfg decode d token request
    pure tt
  submit d (forgotten email) request = do
    _ ← forgot_password R b cfg decode d email request
    pure tt
  submit d (new_password token password) request =
      reset_password R b cfg decode d token password request

  -- What FastAPI resolves before a handler starts: the user, for `/logout-all`.
  unfoldable pub dependencies : Form → Request → Exec (Site R.State) Unit
  dependencies (farewell_everywhere token) request = do
    _ ← on_auth R b cfg decode (get_current_user R b cfg decode request token)
    pure tt
  dependencies _ request = pure tt

  -- The outcome of a form that is refused: an error, and no more of a change than by the dependencies.
  abbrev pub IsRefused : Form → Request → Site R.State → Result (Unit {0}) × Site R.State → Type 0
  IsRefused form request s (r, u) =
      let (found, before) = dependencies form request s in
      (u ≡ before)
      × (e : Exception) × (r ≡ raised e)
      × ((found ≡ raised e)
          ⊎ ((found ≡ ok tt) × IsRefusal (cookie_token cfg request) (header_token cfg request) e))

  -- If no token that is not empty is both the CSRF cookie and the CSRF header of a request, then a registration, a
  -- login, a logout, a logout everywhere, a verification of an address, a request for a new password and a new password
  -- each end in an error. For the logout everywhere the current user is resolved first, which may change the sessions
  -- and raise; beyond that nothing is changed, by this form or another: no account, no session, no count of a limit.
  -- The error is that of the resolution if it raises, and else the 403 of the CSRF check or, only where one of the two
  -- tokens is not ASCII, a type error.
  pub csrf_guards :
      (d : SiteDraws) (form : Form) (request : Request) (s : Site R.State)
      → ((token : String)
          → truthy token ≡ true
          → Dict.lookup cfg.csrf_cookie_name request.cookies ≡ some token
          → request.header cfg.csrf_header_name ≢ some token)
      → IsRefused form request s (submit d form request s)
  unfolding submit dependencies register login logout logout_all verify_email forgot_password
      reset_password
  csrf_guards d form request s unmatched =
      elim form as (λ k. IsRefused k request s (submit d k request s)) [
        | farewell_everywhere token ↦
            elim (Result-cases (get_current_user R b cfg decode request token s.auth).0) [
              | inl (user, found) ↦
                  let (e, stops, why) =
                    validate_csrf-refuses cfg request
                      (on_auth R b cfg decode (get_current_user R b cfg decode request token) s).1
                      unmatched in
                  rw (found, stops) (refl, e, refl, inr (refl, why))
              | inr (e, failed) ↦ rw failed (refl, e, refl, inl refl)
            ]
        | _ ↦
            let (e, stops, why) = validate_csrf-refuses cfg request s unmatched in
            rw stops (refl, e, refl, inr (refl, why))
      ]

  -- A browser that logs in stays logged in. If a login that passes the check of its CSRF token, the rate limit and
  -- the lockout has the right password of an active user who is filed under its own id, it is answered with that
  -- user and sets the session cookie and a CSRF cookie; and a request that brings the session cookie, if its value
  -- is not empty, is that user's.
  pub login-get_current_user :
      (d : SiteDraws) (email password : String) (request next : Request) (token : Option String)
      (s : Site R.State) (user : User)
      → validate_csrf cfg request s ≡ (ok tt, s)
      → (AuthLimits.check R cfg d.checked_at
          ("login:" <> address_of request <> ":" <> normalize email)
          s.limiter).0
        ≡ ok tt
      → (assert_not_locked R cfg d.service.checked_at (normalize email) s.auth.lockout).0 ≡ ok tt
      → lookup_user R b cfg (normalize email) s.auth ≡ ok (some user)
      → Dict.lookup user.id s.auth.users.users ≡ some user
      → password_matches b password user ≡ true
      → user.is_active ≡ true
      → truthy d.service.session_id ≡ true
      → Dict.lookup cfg.session_cookie_name next.cookies ≡ some d.service.session_id
      → let (r, u) = login R b cfg decode d email password request s in
        (r
          ≡ ok (record {
            content = sanitize_user user;
            cookies = session_cookie cfg d.service.session_id ∷ csrf_cookie cfg d.csrf ∷ [];
          }))
        × ((get_current_user R b cfg decode next token u.auth).0
            ≡ ok (of_session (principal_of user)))
  unfolding login get_current_user or_empty
  login-get_current_user d email password request next token s user passed limited unlocked found
        filed matching active named brought =
      let (answer, resolved) =
        login-resolve_session R b cfg d.service (normalize email) password (client_meta request)
          s.auth user unlocked found filed matching active named in
      (
        rw (passed, limited, answer) refl,
        rw (passed, limited, answer, brought) (rw (named, resolved) refl),
      )
