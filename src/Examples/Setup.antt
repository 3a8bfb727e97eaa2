-- ===== src/Examples/Setup.antt =====
-- The libraries and the state that the examples run on.
use Prim.Native.String.{count}
use enterprise_llm_assistant.Clients.Redis.{Redis}
use enterprise_llm_assistant.Prelude.{
  ap, ℕ, inl, inr, String, true, false, none, some, [], ◌∷◌, ◌≢◌, refl, arith,
}
use enterprise_llm_assistant.Prelude.{◌==◌, string_eq, if◌then◌else◌, ==_refl, ==_cases}
use enterprise_llm_assistant.Security.Authentication
use enterprise_llm_assistant.Security.Authentication.{Bcrypt}
use enterprise_llm_assistant.Security.Sessions.{empty_store}
use enterprise_llm_assistant.Repositories.Users.{User, Users, no_users}
use enterprise_llm_assistant.Services.AuthService.{Auth, Draws, ClientMeta}

-- A server that keeps nothing: the examples leave it unused.
abbrev pub no_redis : Redis
no_redis = record {
  State = Unit;
  get = λ k s. none;
  set = λ k v ttl s. s;
  delete = λ k s. s;
  expire = λ k ttl s. s;
  incr = λ k s. (1, s);
  sadd = λ k ms s. s;
  srem = λ k ms s. s;
  smembers = λ k s. [];
}

-- A hash that is the password, but never empty.
abbrev hash_of : String → String
hash_of password = if password == "" then "empty" else password

abbrev pub plain : Bcrypt
plain = record {
  hashpw = λ password salt. hash_of password;
  checkpw = λ password hashed. some (hashed == hash_of password);
}

hash_of-ne_empty : (password : String) → hash_of password ≢ ""
hash_of-ne_empty password = elim (==_cases password "") [
  | inl (e, _) ↦ rw e (λ p. omega (arith, ap (λ (s : String). count s) p))
  | inr (e, differ) ↦ rw e differ
]

pub plain-IsLawful : Authentication.IsLawful plain
plain-IsLawful = record {
  checkpw-hashpw = λ password salt. rw (==_refl (hash_of password)) refl;
  hashpw-ne_empty = λ password salt. hash_of-ne_empty password;
}

abbrev pub ada : User
ada = record {
  id = "u1";
  email = "ada@example.com";
  password_hash = some "correct horse";
  role = "user";
  is_active = true;
  email_verified = true;
  created_at = 0;
}

abbrev pub bob : User
bob = record ada { id = "u2"; email = "bob@example.com"; is_active = false; email_verified = false }

abbrev pub two_users : Users
two_users = record no_users {
  users = ("u1", ada) ∷ ("u2", bob) ∷ [];
  by_email = ("ada@example.com", "u1") ∷ ("bob@example.com", "u2") ∷ [];
}

abbrev pub fresh_auth : Auth Unit
fresh_auth = record {
  users = two_users;
  sessions = empty_store;
  lockout = record { redis = none; failures = []; locked_until = [] };
}

abbrev pub draws : ℕ → Draws
draws now = record {
  uuid = "u3";
  salt = "salt";
  token = "t1";
  session_id = "s1";
  now = now;
  checked_at = now;
  failed_at = now;
}

abbrev pub browser : ClientMeta
browser = record { ip_address = some "10.0.0.1"; user_agent = some "Mozilla" }
