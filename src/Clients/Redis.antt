-- ===== src/Clients/Redis.antt =====
-- app/clients/redis_client.py: the commands of a Redis server, which is a parameter of the model, and
-- the wrapper's operations on it. `connect` opens the connection once and is not modelled.
use enterprise_llm_assistant.Core.Exceptions.{value_error}
use enterprise_llm_assistant.Core.Json.{Json, null}
use enterprise_llm_assistant.Core.Json.Values.{JsonText}
use enterprise_llm_assistant.Prelude.{ℕ, String, Option, none, some, List, [], ◌∷◌}
use enterprise_llm_assistant.Prelude.{if◌then◌else◌}
use enterprise_llm_assistant.Prelude.Text.{truthy}
use enterprise_llm_assistant.Prelude.Exec.{Result, ok, raised, Exec}

pub record Redis : Type 1 where
  pub State : Type 0
  pub get : String → State → Option String
  pub set : String → String → Option ℕ → State → State
  pub delete : String → State → State
  pub expire : String → ℕ → State → State
  pub incr : String → State → ℕ × State
  pub sadd : String → List String → State → State
  pub srem : String → List String → State → State
  pub smembers : String → State → List String

-- The value of a text that was read: `null` is None.
abbrev pub unless_null : Json → Option Json
unless_null null = none
unless_null value = some value

module _ (R : Redis) where
  -- `RedisClient.sadd` and `srem` send nothing for an empty list of members.
  unfoldable pub sadd : String → List String → R.State → R.State
  sadd key [] s = s
  sadd key (m ∷ members) s = R.sadd key (m ∷ members) s

  unfoldable pub srem : String → List String → R.State → R.State
  srem key [] s = s
  srem key (m ∷ members) s = R.srem key (m ∷ members) s

  module _ (J : JsonText) where
    -- The text of an entry, read.
    loaded : Option String → Result (Option Json)
    loaded none = ok none
    loaded (some raw) =
        if truthy raw
        then elim (J.loads raw) [
          | none ↦ raised (value_error (J.decode_error raw))
          | some value ↦ ok (unless_null value)
        ]
        else ok none

    unfoldable pub get_json : String → Exec R.State (Option Json)
    unfolding loaded
    get_json key s = (loaded (R.get key s), s)

    unfoldable pub set_json : String → Json → Option ℕ → R.State → R.State
    set_json key value ttl_seconds s = R.set key (J.dumps value) ttl_seconds s
