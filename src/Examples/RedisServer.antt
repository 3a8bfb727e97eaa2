-- ===== src/Examples/RedisServer.antt =====
-- A Redis server with a clock: two tables, of texts and of sets, with the second at which each key expires.
use enterprise_llm_assistant.Clients.Redis.{Redis}
use enterprise_llm_assistant.Security.Sessions.{discard}
use enterprise_llm_assistant.Security.Sessions.Index.{contains-discard}
use enterprise_llm_assistant.Security.RedisSessions.Keys.{IsLawful, holds_set}
use enterprise_llm_assistant.Security.RedisSessions.Expiry.{Timed}
use enterprise_llm_assistant.Prelude.{
  ℕ, ◌+◌, ◌-◌, String, Bool, true, Option, none, some, List, [], ◌∷◌, ◌++◌, arith,
}
use enterprise_llm_assistant.Prelude.{◌==◌, string_eq, ltb, if◌then◌else◌}

pub record Server : Type 0 where
  pub now : ℕ
  pub texts : String → Option (String × Option ℕ)
  pub sets : String → List String × Option ℕ

abbrev pub new_server : Server
new_server = record { now = 0; texts = λ k. none; sets = λ k. ([], none) }

abbrev alive : ℕ → Option ℕ → Bool
alive now none = true
alive now (some deadline) = ltb now deadline

abbrev text_in : String → Server → Option String
text_in k s = elim (s.texts k) [
  | none ↦ none
  | some (v, deadline) ↦ if alive s.now deadline then some v else none
]

abbrev members_at : String → Server → List String
members_at k s = if alive s.now (s.sets k).1 then (s.sets k).0 else []

abbrev deadline_at : String → Server → Option ℕ
deadline_at k s = if alive s.now (s.sets k).1 then (s.sets k).1 else none

abbrev deadline_of : ℕ → Option ℕ → Option ℕ
deadline_of now none = none
deadline_of now (some ttl) = some (now + ttl)

abbrev set_text : String → String → Option ℕ → Server → Server
set_text k v ttl s = record s {
  texts = λ j. if j == k then some (v, deadline_of s.now ttl) else s.texts j;
}

abbrev delete_key : String → Server → Server
delete_key k s = record s {
  texts = λ j. if j == k then none else s.texts j;
  sets = λ j. if j == k then ([], none) else s.sets j;
}

-- A new deadline for a text, if it is there.
abbrev renewed : ℕ → ℕ → Option (String × Option ℕ) → Option (String × Option ℕ)
renewed now ttl none = none
renewed now ttl (some (v, deadline)) =
    if alive now deadline then some (v, some (now + ttl)) else some (v, deadline)

abbrev expire_key : String → ℕ → Server → Server
expire_key k ttl s = record s {
  texts = λ j. if j == k then renewed s.now ttl (s.texts j) else s.texts j;
  sets = λ j. if j == k then (members_at j s, some (s.now + ttl)) else s.sets j;
}

abbrev add_members : String → List String → Server → Server
add_members k ms s = record s {
  sets = λ j. if j == k then (ms ++ members_at j s, deadline_at j s) else s.sets j;
}

abbrev discard_all : List String → List String → List String
discard_all [] xs = xs
discard_all (m ∷ ms) xs = discard_all ms (discard m xs)

abbrev remove_members : String → List String → Server → Server
remove_members k ms s = record s {
  sets = λ j. if j == k then (discard_all ms (members_at j s), deadline_at j s) else s.sets j;
}

abbrev pub server : Redis
server = record {
  State = Server;
  get = text_in;
  set = set_text;
  delete = delete_key;
  expire = expire_key;
  incr = λ k s. (1, s);
  sadd = add_members;
  srem = remove_members;
  smembers = members_at;
}

pub server-IsLawful : IsLawful server
server-IsLawful = record {
  get-set = λ j k v ttl s kind h. ground arith;
  get-delete = λ j k s kind. ground arith;
  get-expire = λ j k ttl s h. ground arith;
  get-sadd = λ j k m s kind other. ground arith;
  get-srem = λ j k m s kind other. ground arith;
  smembers-set = λ x j k v ttl s kind other. ground arith;
  smembers-delete = λ x j k s kind. ground arith;
  smembers-expire = λ x j k ttl s h. ground arith;
  smembers-sadd = λ x j k m s kind other. ground arith;
  smembers-srem = λ x j k m s kind other. ground (arith, contains-discard x m (members_at j s));
}

abbrev left_of : ℕ → Option ℕ → Option ℕ
left_of now none = none
left_of now (some deadline) = if ltb now deadline then some (deadline - now) else none

abbrev text_deadline : Option (String × Option ℕ) → Option ℕ
text_deadline none = none
text_deadline (some (v, deadline)) = deadline

pub server-Timed : Timed server
server-Timed = record {
  wait = λ d s. record s { now = s.now + d };
  left = λ k s.
      if holds_set k then left_of s.now (s.sets k).1 else left_of s.now (text_deadline (s.texts k));
  left-set = λ j k v ttl s kind h. ground arith;
  left-sadd = λ j k m s apart. ground arith;
  left-expire = λ k ttl s kind there h. ground arith;
  left-expire_other = λ j k ttl s apart. ground arith;
  left-wait = λ j t d s h short. ground arith;
  get-wait = λ j t d s kind h short. ground arith;
  smembers-wait = λ j t d s kind h long. ground arith;
}
