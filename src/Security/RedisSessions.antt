-- ===== src/Security/RedisSessions.antt =====
-- app/security/sessions.py, `RedisSessionStore`, over the Redis client. The data of a session is the dict that the
-- caller passes. The order in which `smembers` gives the members is the order of the loop over them.
pub mod Keys
pub mod Refinement
pub mod Agreement
pub mod Expiry
use Prim.Native.String.{◌++◌ as ◌<>◌}
use enterprise_llm_assistant.Core.Exceptions.{attribute_error}
use enterprise_llm_assistant.Core.Settings.{Settings, or_default}
use enterprise_llm_assistant.Core.Json.{Json, null, boolean, number, float, text, array, object}
use enterprise_llm_assistant.Core.Json.Values.{
  JsonText, fields_of, dict_of, is_truthy, str, get_json,
}
use enterprise_llm_assistant.Clients.Redis as Client
use enterprise_llm_assistant.Clients.Redis.{Redis}
use enterprise_llm_assistant.Prelude.{ℕ, String, Option, none, some, List, [], ◌∷◌}
use enterprise_llm_assistant.Prelude.{string_eq, if◌then◌else◌, length}
use enterprise_llm_assistant.Prelude.Text.{truthy}
use enterprise_llm_assistant.Prelude.Dict
use enterprise_llm_assistant.Prelude.Dict.{Dict}
use enterprise_llm_assistant.Prelude.Exec.{ok, Exec, pure, raise, gets, modify, ◌>>=◌, ◌>>◌}

unfoldable pub session_key : String → String
session_key session_id = "session:" <> session_id

unfoldable pub user_key : String → String
user_key user_id = "session_user:" <> user_id

unfoldable pub oauth_key : String → String
oauth_key state = "oauth_state:" <> state

module _ (R : Redis) (J : JsonText) where
  -- `str(data.get("user_id", ""))`
  abbrev pub owner_of : Dict String Json → String
  owner_of content = elim (Dict.lookup "user_id" content) [ none ↦ "" | some j ↦ str J j ]

  unfoldable pub get : String → Exec R.State (Option Json)
  get session_id = Client.get_json R J (session_key session_id)

  -- `type(value).__name__`
  type_name : Json → String
  type_name null = "NoneType"
  type_name (boolean b) = "bool"
  type_name (number n) = "int"
  type_name (float f) = "float"
  type_name (text s) = "str"
  type_name (array js) = "list"
  type_name (object fs) = "dict"

  -- The session leaves the index of its user.
  forget_in : String → Dict String Json → R.State → R.State
  forget_in session_id content s =
      if is_truthy J (get_json "user_id" content)
      then Client.srem R (user_key (str J (get_json "user_id" content))) (session_id ∷ []) s
      else s

  forget : String → Option Json → Exec R.State Unit
  unfolding forget_in type_name
  forget session_id none = pure tt
  forget session_id (some (object fs)) = modify (forget_in session_id (dict_of fs))
  forget session_id (some j) =
      if is_truthy J j
      then raise (attribute_error ("'" <> type_name j <> "' object has no attribute 'get'"))
      else pure tt

  unfoldable pub delete : String → Exec R.State Unit
  unfolding forget
  delete session_id = do
    content ← get session_id
    modify (R.delete (session_key session_id))
    forget session_id content

  unfoldable pub delete_each : List String → Exec R.State Unit
  delete_each [] = pure tt
  delete_each (session_id ∷ ids) = do delete session_id; delete_each ids

  unfoldable pub delete_all_for_user : String → Exec R.State ℕ
  delete_all_for_user user_id = do
    ids ← gets (R.smembers (user_key user_id))
    delete_each ids
    modify (R.delete (user_key user_id))
    pure (length ids)

  unfoldable pub pop_oauth_state : String → Exec R.State (Option Json)
  pop_oauth_state state = do
    content ← Client.get_json R J (oauth_key state)
    modify (R.delete (oauth_key state))
    pure content

  module _ (cfg : Settings) where
    -- What `create` stores; `now` is the time as `isoformat` writes it.
    abbrev pub payload : String → Dict String Json → Json
    payload now content = object (fields_of (Dict.merged content (("created_at", text now) ∷ [])))

    -- The session enters the index of its user, which gets the time to live of the session.
    enter : String → String → ℕ → R.State → R.State
    enter user_id session_id ttl s =
        if truthy user_id
        then R.expire (user_key user_id) ttl (Client.sadd R (user_key user_id) (session_id ∷ []) s)
        else s

    -- `session_id` is what `new_session_id()` drew.
    unfoldable pub create : String → String → Dict String Json → Option ℕ → Exec R.State String
    unfolding enter
    create now session_id content ttl_seconds = do
      let ttl = or_default ttl_seconds cfg.session_ttl_seconds
      modify (Client.set_json R J (session_key session_id) (payload now content) (some ttl))
      modify (enter (owner_of content) session_id ttl)
      pure session_id

    unfoldable pub touch : String → Option ℕ → Exec R.State Unit
    touch session_id ttl_seconds = do
      content ← get session_id
      (λ s. elim content [
        | none ↦ (ok tt, s)
        | some j ↦ (
          ok tt,
          Client.set_json R J (session_key session_id) j
              (some (or_default ttl_seconds cfg.session_ttl_seconds)) s,
        )
      ])

    unfoldable pub set_oauth_state : String → Dict String Json → Option ℕ → Exec R.State Unit
    set_oauth_state state content ttl_seconds = modify (
        Client.set_json R J (oauth_key state) (object (fields_of content))
          (some (or_default ttl_seconds cfg.oauth_state_ttl_seconds)))
