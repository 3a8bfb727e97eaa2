-- ===== src/Security/RedisSessions/Keys.antt =====
-- The keys of `RedisSessionStore`, and what a Redis server promises of the commands on them.
use Prim.Native.Char.{code}
use Prim.Native.String.{◌++◌ as ◌<>◌}
use text.Mathlib.TextLemmas.{cons-append, append_cancel_left}
use enterprise_llm_assistant.Clients.Redis.{Redis}
use enterprise_llm_assistant.Prelude.{
  ℕ, ◌≤◌, String, Bool, true, false, ◌&&◌, ◌||◌, not, none, some, [], ◌∷◌, ◌≡◌, refl, arith,
}
use enterprise_llm_assistant.Prelude.{◌==◌, string_eq, eqb, if◌then◌else◌, contains}
use enterprise_llm_assistant.Prelude.Text.{starts_with}
use enterprise_llm_assistant.Security.RedisSessions.{session_key, user_key}

-- The two texts differ at a position that both have.
unfoldable clash : String → String → Bool
clash String.[] s = false
clash (String.◌∷◌ c needle) String.[] = false
clash (String.◌∷◌ c needle) (String.◌∷◌ d s) = not (eqb (code c) (code d)) || clash needle s

starts_with-append : (p s : String) → starts_with p (p <> s) ≡ true
unfolding starts_with
starts_with-append String.[] s = refl
starts_with-append (String.◌∷◌ c p) s =
    rw (cons-append c p s) (ground (arith, starts_with-append p s))

starts_with-clash :
    (needle p s : String) → clash needle p ≡ true → starts_with needle (p <> s) ≡ false
unfolding starts_with clash
starts_with-clash (String.◌∷◌ c needle) (String.◌∷◌ d p) s h =
    rw (cons-append d p s) (ground (arith, starts_with-clash needle p s))
starts_with-clash (String.◌∷◌ c needle) String.[] s h = ground arith
starts_with-clash String.[] p s h = ground arith

==-append : (p a b : String) → (p <> a == p <> b) ≡ (a == b)
==-append p a b = ground (arith, append_cancel_left p a b)

-- The keys that hold a set.
unfoldable pub holds_set : String → Bool
holds_set key = starts_with "session_user:" key

pub holds_set-user_key : (user_id : String) → holds_set (user_key user_id) ≡ true
unfolding holds_set user_key
holds_set-user_key user_id = starts_with-append "session_user:" user_id

pub holds_set-session_key : (session_id : String) → holds_set (session_key session_id) ≡ false
unfolding holds_set session_key clash
holds_set-session_key session_id = starts_with-clash "session_user:" "session:" session_id refl

pub session_key-== : (a b : String) → (session_key a == session_key b) ≡ (a == b)
unfolding session_key
session_key-== a b = ==-append "session:" a b

pub user_key-== : (a b : String) → (user_key a == user_key b) ≡ (a == b)
unfolding user_key
user_key-== a b = ==-append "session_user:" a b

pub session_key-user_key : (a b : String) → (session_key a == user_key b) ≡ false
session_key-user_key a b = ground (arith, holds_set-session_key a, holds_set-user_key b)

pub user_key-session_key : (a b : String) → (user_key a == session_key b) ≡ false
user_key-session_key a b = ground (arith, holds_set-session_key b, holds_set-user_key a)

-- What the server's commands do to the entry of a key that holds a text, and to the members of one that
-- holds a set, as long as no key has expired.
pub record IsLawful (R : Redis) : Type 0 where
  pub get-set :
      (j k value : String) (ttl : ℕ) (s : R.State)
      → holds_set j ≡ false
      → 1 ≤ ttl
      → R.get j (R.set k value (some ttl) s) ≡ (if j == k then some value else R.get j s)
  pub get-delete :
      (j k : String) (s : R.State)
      → holds_set j ≡ false
      → R.get j (R.delete k s) ≡ (if j == k then none else R.get j s)
  pub get-expire :
      (j k : String) (ttl : ℕ) (s : R.State) → 1 ≤ ttl → R.get j (R.expire k ttl s) ≡ R.get j s
  pub get-sadd :
      (j k m : String) (s : R.State)
      → holds_set j ≡ false
      → holds_set k ≡ true
      → R.get j (R.sadd k (m ∷ []) s) ≡ R.get j s
  pub get-srem :
      (j k m : String) (s : R.State)
      → holds_set j ≡ false
      → holds_set k ≡ true
      → R.get j (R.srem k (m ∷ []) s) ≡ R.get j s
  pub smembers-set :
      (x j k value : String) (ttl : ℕ) (s : R.State)
      → holds_set j ≡ true
      → holds_set k ≡ false
      → contains (R.smembers j (R.set k value (some ttl) s)) x ≡ contains (R.smembers j s) x
  pub smembers-delete :
      (x j k : String) (s : R.State)
      → holds_set j ≡ true
      → contains (R.smembers j (R.delete k s)) x
        ≡ (if j == k then false else contains (R.smembers j s) x)
  pub smembers-expire :
      (x j k : String) (ttl : ℕ) (s : R.State)
      → 1 ≤ ttl
      → contains (R.smembers j (R.expire k ttl s)) x ≡ contains (R.smembers j s) x
  pub smembers-sadd :
      (x j k m : String) (s : R.State)
      → holds_set j ≡ true
      → holds_set k ≡ true
      → contains (R.smembers j (R.sadd k (m ∷ []) s)) x
        ≡ ((j == k && x == m) || contains (R.smembers j s) x)
  pub smembers-srem :
      (x j k m : String) (s : R.State)
      → holds_set j ≡ true
      → holds_set k ≡ true
      → contains (R.smembers j (R.srem k (m ∷ []) s)) x
        ≡ (if j == k && x == m then false else contains (R.smembers j s) x)
