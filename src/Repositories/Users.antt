-- ===== src/Repositories/Users.antt =====
-- app/repositories/user_repository.py, `InMemoryUserRepository`. Identifiers, tokens, salts and clock
-- readings that a method draws are its arguments.
pub mod Tokens
pub mod Directory
pub mod Runs
use enterprise_llm_assistant.Core.Exceptions.{value_error, key_error}
use enterprise_llm_assistant.Prelude.{
  ℕ, ◌+◌, ◌*◌, String, Bool, true, false, Option, none, some, List, [], ◌∷◌, ◌++◌, ◌||◌,
}
use enterprise_llm_assistant.Prelude.{string_eq, pair_eq, if◌then◌else◌, ltb}
use enterprise_llm_assistant.Prelude.Text.{truthy}
use enterprise_llm_assistant.Prelude.Dict
use enterprise_llm_assistant.Prelude.Dict.{Dict}
use enterprise_llm_assistant.Prelude.Exec.{Result, ok, raised, Exec}
use enterprise_llm_assistant.Security.AuthLimits.{normalize}
use enterprise_llm_assistant.Security.Authentication.{Bcrypt, hash_password}

-- `timedelta(hours=n)`
abbrev pub hours : ℕ → ℕ
hours n = n * 3_600_000_000

pub record User : Type 0 where
  pub id : String
  pub email : String
  pub password_hash : Option String
  pub role : String
  pub is_active : Bool
  pub email_verified : Bool
  pub created_at : ℕ

pub record OauthAccount : Type 0 where
  pub user_id : String
  pub provider : String
  pub provider_user_id : String
  pub email : Option String

pub record TokenData : Type 0 where
  pub user_id : String
  pub expires_at : ℕ
  pub used : Bool

pub record AuditEvent : Type 0 where
  pub event_type : String
  pub user_id : Option String
  pub email : Option String
  pub ip_address : Option String
  pub user_agent : Option String
  pub detail : Option String

pub record Users : Type 0 where
  pub users : Dict String User
  pub by_email : Dict String String
  pub oauth : Dict (String × String) OauthAccount
  pub verify_tokens : Dict String TokenData
  pub reset_tokens : Dict String TokenData
  pub audit : List AuditEvent

abbrev pub no_users : Users
no_users = record {
  users = [];
  by_email = [];
  oauth = [];
  verify_tokens = [];
  reset_tokens = [];
  audit = [];
}

module _ (b : Bcrypt) where
  -- `hash_password(password) if password else None`
  unfoldable pub hash_if_given : String → Option String → Option String
  hash_if_given salt none = none
  hash_if_given salt (some password) =
      if truthy password then some (hash_password b salt password) else none

  -- The dict `record` of `create_user`.
  abbrev pub new_user : String → String → ℕ → String → Option String → String → Bool → User
  new_user user_id salt now email password role email_verified = record {
    id = user_id;
    email = normalize email;
    password_hash = hash_if_given salt password;
    role = role;
    is_active = true;
    email_verified = email_verified;
    created_at = now;
  }

  unfoldable pub create_user :
      String → String → ℕ → String → Option String → String → Bool → Exec Users User
  create_user user_id salt now email password role email_verified u =
      let normalized = normalize email in
      let created = new_user user_id salt now email password role email_verified in
      elim (Dict.lookup normalized u.by_email) [
        | some _ ↦ (raised (value_error "Email already registered"), u)
        | none ↦ (
          ok created,
          record u {
            users = Dict.insert user_id created u.users;
            by_email = Dict.insert normalized user_id u.by_email;
          },
        )
      ]

  -- `self._users[user_id]["password_hash"] = hash_password(password)`
  unfoldable pub set_password : String → String → String → Exec Users Unit
  set_password salt user_id password u = elim (Dict.lookup user_id u.users) [
    | none ↦ (raised (key_error user_id), u)
    | some user ↦ (
      ok tt,
      record u {
        users =
            Dict.insert user_id
              (record user { password_hash = some (hash_password b salt password) }) u.users;
      },
    )
  ]

-- `self._users[user_id]`
unfoldable pub user_at : String → Users → Result (Option User)
user_at user_id u = elim (Dict.lookup user_id u.users) [
  | none ↦ raised (key_error user_id)
  | some user ↦ ok (some user)
]

unfoldable pub get_by_email : String → Exec Users (Option User)
unfolding user_at
get_by_email email u = elim (Dict.lookup (normalize email) u.by_email) [
  | none ↦ (ok none, u)
  | some user_id ↦ if truthy user_id then (user_at user_id u, u) else (ok none, u)
]

unfoldable pub get_by_id : String → Users → Option User
get_by_id user_id u = Dict.lookup user_id u.users

unfoldable pub set_email_verified : String → Exec Users (Option User)
set_email_verified user_id u = elim (Dict.lookup user_id u.users) [
  | none ↦ (ok none, u)
  | some user ↦
      let verified : User = record user { email_verified = true } in
      (ok (some verified), record u { users = Dict.insert user_id verified u.users })
]

unfoldable pub link_oauth_account : String → String → String → Option String → Users → Users
link_oauth_account user_id provider provider_user_id email u = record u {
  oauth =
      Dict.insert (provider, provider_user_id)
        (record {
          user_id = user_id;
          provider = provider;
          provider_user_id = provider_user_id;
          email = email;
        })
        u.oauth;
}

unfoldable pub get_oauth_account : String → String → Users → Option OauthAccount
get_oauth_account provider provider_user_id u = Dict.lookup (provider, provider_user_id) u.oauth

-- What the two `create_…_token` methods write.
unfoldable pub issued : ℕ → String → ℕ → TokenData
issued now user_id ttl_hours = record {
  user_id = user_id;
  expires_at = now + hours ttl_hours;
  used = false;
}

-- The test and the write that the two `consume_…_token` methods share.
unfoldable pub consume : ℕ → String → Dict String TokenData → Option String × Dict String TokenData
consume now token tokens = elim (Dict.lookup token tokens) [
  | none ↦ (none, tokens)
  | some entry ↦
      if entry.used || ltb entry.expires_at now
      then (none, tokens)
      else (some entry.user_id, Dict.insert token (record entry { used = true }) tokens)
]

unfoldable pub create_email_verification_token : String → ℕ → String → ℕ → Exec Users String
unfolding issued
create_email_verification_token token now user_id ttl_hours u = (
  ok token,
  record u { verify_tokens = Dict.insert token (issued now user_id ttl_hours) u.verify_tokens },
)

unfoldable pub consume_email_verification_token : ℕ → String → Exec Users (Option String)
unfolding consume
consume_email_verification_token now token u =
    let (user_id, tokens) = consume now token u.verify_tokens in
    (ok user_id, record u { verify_tokens = tokens })

unfoldable pub create_password_reset_token : String → ℕ → String → ℕ → Exec Users String
unfolding issued
create_password_reset_token token now user_id ttl_hours u = (
  ok token,
  record u { reset_tokens = Dict.insert token (issued now user_id ttl_hours) u.reset_tokens },
)

unfoldable pub consume_password_reset_token : ℕ → String → Exec Users (Option String)
unfolding consume
consume_password_reset_token now token u =
    let (user_id, tokens) = consume now token u.reset_tokens in
    (ok user_id, record u { reset_tokens = tokens })

-- The time of the entry is left out: nothing reads it.
unfoldable pub record_audit : AuditEvent → Users → Users
record_audit event u = record u { audit = u.audit ++ event ∷ [] }
