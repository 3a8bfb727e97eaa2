-- ===== src/Security/Authentication.antt =====
-- app/security/authentication.py: roles and their permissions, and the password hash of bcrypt, which is a
-- parameter of the model.
pub mod Permissions
use enterprise_llm_assistant.Core.Exceptions.{authorization}
use enterprise_llm_assistant.Prelude.{
  String, Bool, true, false, Option, none, some, List, [], ◌∷◌, ◌≡◌, ◌≢◌,
}
use enterprise_llm_assistant.Prelude.{string_eq, if◌then◌else◌, contains}
use enterprise_llm_assistant.Prelude.Dict
use enterprise_llm_assistant.Prelude.Dict.{Dict}
use enterprise_llm_assistant.Prelude.Exec.{Result, ok, raised}
use Prim.Native.String.{◌++◌ as ◌<>◌}

abbrev pub role_permissions : Dict String (List String)
role_permissions =
    ("admin", "chat" ∷ "documents" ∷ "agents" ∷ "metrics" ∷ "ops" ∷ [])
    ∷ ("user", "chat" ∷ "documents" ∷ "agents" ∷ "ops" ∷ [])
    ∷ ("viewer", "chat" ∷ [])
    ∷ []

-- `ROLE_PERMISSIONS.get(role, set())`
unfoldable pub permissions_of : String → List String
permissions_of role = elim (Dict.lookup role role_permissions) [ none ↦ [] | some ps ↦ ps ]

unfoldable pub require_permission : String → String → Result (Unit {0})
unfolding permissions_of
require_permission role permission =
    if contains (permissions_of role) permission
    then ok tt
    else raised (authorization ("Role '" <> role <> "' cannot access '" <> permission <> "'"))

-- `bcrypt.hashpw` with a salt, and `bcrypt.checkpw`, which may raise a `ValueError` (`none`).
pub record Bcrypt : Type 0 where
  pub hashpw : String → String → String
  pub checkpw : String → String → Option Bool

-- A password checks against its own hash, and a hash is not the empty string.
pub record IsLawful (b : Bcrypt) : Type 0 where
  pub checkpw-hashpw :
      (password salt : String) → b.checkpw password (b.hashpw password salt) ≡ some true
  pub hashpw-ne_empty : (password salt : String) → b.hashpw password salt ≢ ""

module _ (b : Bcrypt) where
  unfoldable pub hash_password : String → String → String
  hash_password salt password = b.hashpw password salt

  unfoldable pub verify_password : String → String → Bool
  verify_password password hashed_password = elim (b.checkpw password hashed_password) [
    | none ↦ false
    | some answer ↦ answer
  ]
