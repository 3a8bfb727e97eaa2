-- ===== src/Security/Sessions.antt =====
-- app/security/sessions.py, `InMemorySessionStore`. A session's payload is the dict that
-- `AuthService._create_session` passes, and an OAuth state's payload the one that app/api/auth.py passes.
-- The keys that begin with `_` are the field `ttl`, which `get` leaves out.
pub mod Index
pub mod Runs
pub mod Refinement
use enterprise_llm_assistant.Core.Settings.{Settings, or_default}
use enterprise_llm_assistant.Prelude.{
  ℕ, ◌+◌, String, Bool, true, false, Option, none, some, List, [], ◌∷◌, ◌++◌,
}
use enterprise_llm_assistant.Prelude.{◌==◌, string_eq, if◌then◌else◌, length, contains}
use enterprise_llm_assistant.Prelude.Text.{truthy}
use enterprise_llm_assistant.Prelude.Dict
use enterprise_llm_assistant.Prelude.Dict.{Dict}
use enterprise_llm_assistant.Prelude.Exec.{ok, Exec}

pub record SessionData : Type 0 where
  pub user_id : String
  pub role : String
  pub email : String
  pub ip : Option String
  pub user_agent : String

-- What `get` returns.
pub record Session : Type 0 where
  pub content : SessionData
  pub created_at : ℕ

pub record StoredSession : Type 0 where
  pub session : Session
  pub ttl : ℕ

pub record OauthState : Type 0 where
  pub provider : String
  pub redirect_uri : String

pub record StoredState : Type 0 where
  pub payload : OauthState
  pub ttl : ℕ

pub record SessionStore : Type 0 where
  pub sessions : Dict String StoredSession
  pub user_index : Dict String (List String)
  pub oauth_states : Dict String StoredState

abbrev pub empty_store : SessionStore
empty_store = record { sessions = []; user_index = []; oauth_states = [] }

-- A Python `set` is a list without the repeats: `add` and `discard`.
unfoldable pub add : String → List String → List String
add x xs = if contains xs x then xs else xs ++ x ∷ []

unfoldable pub discard : String → List String → List String
discard x [] = []
discard x (y ∷ ys) = let rest = discard x ys in if x == y then rest else y ∷ rest

-- `self._user_index.get(user_id, set())`
unfoldable pub ids_of : String → SessionStore → List String
ids_of user_id s = elim (Dict.lookup user_id s.user_index) [ none ↦ [] | some ids ↦ ids ]

module _ (cfg : Settings) where
  -- `session_id` is what `new_session_id()` drew.
  unfoldable pub create : ℕ → String → SessionData → Option ℕ → Exec SessionStore String
  unfolding ids_of add
  create now session_id content ttl_seconds s =
      let stored : StoredSession = record {
        session = record { content = content; created_at = now };
        ttl = or_default ttl_seconds cfg.session_ttl_seconds;
      } in
      let s' : SessionStore = record s { sessions = Dict.insert session_id stored s.sessions } in
      if truthy content.user_id
      then (
        ok session_id,
        record s' {
          user_index =
              Dict.insert content.user_id (add session_id (ids_of content.user_id s)) s.user_index;
        },
      )
      else (ok session_id, s')

  unfoldable pub touch : String → Option ℕ → Exec SessionStore Unit
  touch session_id ttl_seconds s = elim (Dict.lookup session_id s.sessions) [
    | none ↦ (ok tt, s)
    | some stored ↦ (
      ok tt,
      record s {
        sessions =
            Dict.insert session_id
              (record stored { ttl = or_default ttl_seconds cfg.session_ttl_seconds }) s.sessions;
      },
    )
  ]

  unfoldable pub set_oauth_state : String → OauthState → Option ℕ → Exec SessionStore Unit
  set_oauth_state state payload ttl_seconds s = (
    ok tt,
    record s {
      oauth_states =
          Dict.insert state
            (record { payload = payload; ttl = or_default ttl_seconds cfg.oauth_state_ttl_seconds })
            s.oauth_states;
    },
  )

unfoldable pub get : String → SessionStore → Option Session
get session_id s = elim (Dict.lookup session_id s.sessions) [
  | none ↦ none
  | some stored ↦ some stored.session
]

discard_index : String → String → Dict String (List String) → Dict String (List String)
unfolding discard
discard_index user_id session_id index = elim (Dict.lookup user_id index) [
  | none ↦ index
  | some ids ↦ Dict.insert user_id (discard session_id ids) index
]

unfoldable pub delete : String → SessionStore → SessionStore
unfolding discard_index
delete session_id s = elim (Dict.lookup session_id s.sessions) [
  | none ↦ s
  | some stored ↦ record s {
    sessions = Dict.erase session_id s.sessions;
    user_index = discard_index stored.session.content.user_id session_id s.user_index;
  }
]

-- The loop over the ids.
unfoldable pub delete_all : List String → SessionStore → SessionStore
delete_all [] s = s
delete_all (session_id ∷ ids) s = delete_all ids (delete session_id s)

unfoldable pub delete_all_for_user : String → Exec SessionStore ℕ
unfolding ids_of delete_all
delete_all_for_user user_id s = (ok (length (ids_of user_id s)), delete_all (ids_of user_id s) s)

unfoldable pub pop_oauth_state : String → Exec SessionStore (Option OauthState)
pop_oauth_state state s = elim (Dict.lookup state s.oauth_states) [
  | none ↦ (ok none, s)
  | some stored ↦
      (ok (some stored.payload), record s { oauth_states = Dict.erase state s.oauth_states })
]
