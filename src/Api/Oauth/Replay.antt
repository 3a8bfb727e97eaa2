-- ===== src/Api/Oauth/Replay.antt =====
-- A state of the OAuth flow is used once.
use enterprise_llm_assistant.Core.Exceptions.{app}
use enterprise_llm_assistant.Core.Settings.{Settings}
use enterprise_llm_assistant.Clients.Redis.{Redis}
use enterprise_llm_assistant.Api.Auth.{Site, SiteDraws, client_meta}
use enterprise_llm_assistant.Api.Oauth.{
  OauthProvider, Callback, get_provider, redirect_of, stored_for, enter, oauth_callback,
}
use enterprise_llm_assistant.Prelude.{String, true, false, none, some, ◌≡◌, refl, arith, inl, inr}
use enterprise_llm_assistant.Prelude.{string_eq, Option-cases}
use enterprise_llm_assistant.Prelude.Text.{truthy, or_empty}
use enterprise_llm_assistant.Prelude.Dict
use enterprise_llm_assistant.Prelude.Dict.{Dict}
use enterprise_llm_assistant.Prelude.Exec.{Result, ok, raised, continue}
use enterprise_llm_assistant.Repositories.Users.{User}
use enterprise_llm_assistant.Security.Authentication.{Bcrypt}
use enterprise_llm_assistant.Security.Browser.{Request}
use enterprise_llm_assistant.Security.Sessions
use enterprise_llm_assistant.Security.Sessions.{OauthState, StoredState}
use enterprise_llm_assistant.Services.AuthService.{Auth, Draws, ClientMeta, OauthUserInfo}
use enterprise_llm_assistant.Services.AuthService.Accounts.{login_with_oauth, oauth_user}
use enterprise_llm_assistant.Services.AuthService.Accounts.Requests.{oauth_user-sessions}
use enterprise_llm_assistant.Services.AuthService.Accounts.Directory.{account_of}

module _ (R : Redis) (b : Bcrypt) (cfg : Settings) (registry : Dict String OauthProvider) where
  -- A login leaves the states of the flow.
  login_of-states :
      (d : Draws) (info : OauthUserInfo) (meta : ClientMeta) (s : Auth R.State) (r : Result User)
      → (oauth_user R b cfg d info (account_of R b cfg info s) s).0 ≡ r
      → (login_with_oauth R b cfg d info meta s).1.sessions.oauth_states ≡ s.sessions.oauth_states
  unfolding login_with_oauth Sessions.create
  login_of-states d info meta s (ok user) e =
      ground (arith, e, oauth_user-sessions R b cfg d info (account_of R b cfg info s) s)
  login_of-states d info meta s (raised x) e =
      ground (arith, e, oauth_user-sessions R b cfg d info (account_of R b cfg info s) s)

  -- The rest of a callback leaves them too.
  enter-states :
      (d : SiteDraws) (provider : String) (request : Request) (sent : String) (stored : OauthState)
      (s : Site R.State) (p : Result OauthProvider) (info : Result OauthUserInfo)
      → get_provider provider registry ≡ p
      → ((q : OauthProvider)
          → p ≡ ok q
          → q.exchange_code sent (redirect_of R b cfg registry provider stored) ≡ info)
      → (enter R b cfg registry d provider request sent stored s).1.auth.sessions.oauth_states
        ≡ s.auth.sessions.oauth_states
  unfolding enter
  enter-states d provider request sent stored s (raised x) info e f = rw e refl
  enter-states d provider request sent stored s (ok q) (raised x) e f = rw (e, f q refl) refl
  enter-states d provider request sent stored s (ok q) (ok i) e f =
      let kept =
        login_of-states d.service i (client_meta request) s.auth
          (oauth_user R b cfg d.service i (account_of R b cfg i s.auth) s.auth).0 refl in
      rw (e, f q refl) (ground (arith, kept))

  abbrev info_of : String → String → OauthState → Result OauthProvider → Result OauthUserInfo
  info_of provider sent stored (raised x) = raised x
  info_of provider sent stored (ok q) =
      q.exchange_code sent (redirect_of R b cfg registry provider stored)

  enter-keeps :
      (d : SiteDraws) (provider : String) (request : Request) (sent : String) (stored : OauthState)
      (s : Site R.State)
      → (enter R b cfg registry d provider request sent stored s).1.auth.sessions.oauth_states
        ≡ s.auth.sessions.oauth_states
  enter-keeps d provider request sent stored s =
      enter-states d provider request sent stored s (get_provider provider registry)
        (info_of provider sent stored (get_provider provider registry)) refl (λ q e. rw e refl)

  -- What follows the check of the state.
  checked-keeps :
      (d : SiteDraws) (provider : String) (request : Request) (sent : String)
      (r : Result OauthState) (s : Site R.State)
      → (continue r (enter R b cfg registry d provider request sent) s).1.auth.sessions.oauth_states
        ≡ s.auth.sessions.oauth_states
  checked-keeps d provider request sent (raised x) s = refl
  checked-keeps d provider request sent (ok stored) s = enter-keeps d provider request sent stored s

  -- A callback that brings what it has to.
  abbrev pub Complete : Callback → Type 0
  Complete back =
      (truthy (or_empty back.error) ≡ false)
      × (truthy (or_empty back.code) ≡ true)
      × (truthy (or_empty back.state) ≡ true)

  used_up :
      (d : SiteDraws) (provider : String) (request : Request) (back : Callback) (s : Site R.State)
      → Complete back
      → Dict.lookup
          (or_empty back.state)
          (oauth_callback R b cfg registry d provider request back s).1.auth.sessions.oauth_states
        ≡ none
  unfolding oauth_callback Sessions.pop_oauth_state Dict.lookup
  used_up d provider request back s (no_error, with_code, with_state) =
      let state = or_empty back.state in
      let states = s.auth.sessions.oauth_states in
      elim (Option-cases (Dict.lookup state states)) [
        | inl e ↦ rw (no_error, with_code, with_state, e) (rw (e) refl)
        | inr (stored, e) ↦
            rw (no_error, with_code, with_state, e)
              (rw
                (checked-keeps d provider request (or_empty back.code)
                  (stored_for R b cfg registry provider (some stored.payload)) _)
                (ground (arith, Dict.lookup-erase state state states)))
      ]

  refused :
      (d : SiteDraws) (provider : String) (request : Request) (back : Callback) (s : Site R.State)
      → Complete back
      → Dict.lookup (or_empty back.state) s.auth.sessions.oauth_states ≡ none
      → oauth_callback R b cfg registry d provider request back s
        ≡ (raised (app "Invalid OAuth state" 400), s)
  unfolding oauth_callback Sessions.pop_oauth_state stored_for Dict.lookup
  refused d provider request back s (no_error, with_code, with_state) gone =
      rw (no_error, with_code, with_state, gone) refl

  -- A state of the flow is good for one callback. After a callback that brings a code and a state and no error,
  -- whatever came of it, the next callback that brings a code and the same state and no error, of any provider, is
  -- refused and changes nothing.
  pub replay_refused :
      (d e : SiteDraws) (provider other : String) (request next : Request) (back again : Callback)
      (s : Site R.State)
      → Complete back
      → Complete again
      → or_empty again.state ≡ or_empty back.state
      → let t = (oauth_callback R b cfg registry d provider request back s).1 in
        oauth_callback R b cfg registry e other next again t
        ≡ (raised (app "Invalid OAuth state" 400), t)
  replay_refused d e provider other request next back again s first second same =
      refused e other next again (oauth_callback R b cfg registry d provider request back s).1
        second (rw same (used_up d provider request back s first))
