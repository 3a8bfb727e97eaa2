-- ===== src/Security/SessionContract.antt =====
-- What app/security/sessions.py `SessionStore` promises: a session by its id, until it is deleted or its user is
-- revoked. The two stores of the file implement it.
use enterprise_llm_assistant.Security.Sessions.{SessionData, Session}
use enterprise_llm_assistant.Security.Sessions.Index.{belongs_to}
use enterprise_llm_assistant.Prelude.{ℕ, String, ◌&&◌, Option, none, some, List, [], ◌∷◌, ◌≡◌}
use enterprise_llm_assistant.Prelude.{string_eq, ◌==◌, if◌then◌else◌}
use enterprise_llm_assistant.Prelude.Text.{truthy}

-- The sessions that can be read.
abbrev pub View : Type 0
View = String → Option Session

abbrev pub nothing : View
nothing sid = none

-- A change of the store; a clock reading and an id are what the call draws.
pub data Change : Type 0 where
  created : ℕ → String → SessionData → Option ℕ → Change
  touched : String → Option ℕ → Change
  deleted : String → Change
  revoked : String → Change

abbrev pub put : String → Session → View → View
put session_id session v sid = if sid == session_id then some session else v sid

abbrev pub remove : String → View → View
remove session_id v sid = if sid == session_id then none else v sid

-- The empty text is no user's id.
abbrev pub revoke : String → View → View
revoke user_id v sid = if truthy user_id && belongs_to user_id (v sid) then none else v sid

unfoldable pub apply : Change → View → View
apply (created now session_id content ttl) v =
    put session_id (record { content = content; created_at = now }) v
apply (touched session_id ttl) v = v
apply (deleted session_id) v = remove session_id v
apply (revoked user_id) v = revoke user_id v

unfoldable pub apply_all : List Change → View → View
apply_all [] v = v
apply_all (change ∷ changes) v = apply_all changes (apply change v)

-- Every id that is drawn is one that the store does not hold.
abbrev pub IsNew : Change → View → Type 0
IsNew (created now session_id content ttl) v = v session_id ≡ none
IsNew (touched session_id ttl) v = Unit
IsNew (deleted session_id) v = Unit
IsNew (revoked user_id) v = Unit

abbrev pub AllNew : List Change → View → Type 0
AllNew [] v = Unit
AllNew (change ∷ changes) v = IsNew change v × AllNew changes (apply change v)
