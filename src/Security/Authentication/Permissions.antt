-- ===== src/Security/Authentication/Permissions.antt =====
-- Who may access what, by `require_permission`.
use enterprise_llm_assistant.Prelude.{String, true, [], ◌∷◌, ◌≡◌, ◌↔◌, ◌⊎◌, arith}
use enterprise_llm_assistant.Prelude.{string_eq, contains}
use enterprise_llm_assistant.Prelude.Dict
use enterprise_llm_assistant.Prelude.Exec.{ok}
use enterprise_llm_assistant.Security.Authentication.{require_permission}

-- The access matrix, role by role: an unknown role has no access at all.
abbrev pub Allowed : String → String → Type 0
Allowed role permission =
    (role ≡ "admin")
      × (contains ("chat" ∷ "documents" ∷ "agents" ∷ "metrics" ∷ "ops" ∷ []) permission ≡ true)
    ⊎ (role ≡ "user") × (contains ("chat" ∷ "documents" ∷ "agents" ∷ "ops" ∷ []) permission ≡ true)
    ⊎ (role ≡ "viewer") × (permission ≡ "chat")

-- `require_permission` passes exactly for the role `admin` with chat, documents, agents, metrics and ops,
-- `user` with chat, documents, agents and ops, and `viewer` with chat.
pub require_permission_iff :
    (role permission : String)
    → (require_permission role permission ≡ ok tt) ↔ Allowed role permission
unfolding require_permission Dict.lookup
require_permission_iff role permission = (ground arith, ground arith)
