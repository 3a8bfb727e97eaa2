-- ===== src/Security/Sessions/Runs.antt =====
-- `InMemorySessionStore` under any sequence of its operations.
use enterprise_llm_assistant.Core.Settings.{Settings}
use enterprise_llm_assistant.Prelude.{ℕ, String, true, false, Option, none, ◌≡◌, inl, inr}
use enterprise_llm_assistant.Prelude.{string_eq, Option-cases}
use enterprise_llm_assistant.Prelude.Text.{truthy}
use enterprise_llm_assistant.Prelude.Dict
use enterprise_llm_assistant.Security.Sessions.{
  SessionStore, SessionData, ids_of, OauthState, empty_store, create, touch, get, delete,
  delete_all_for_user, set_oauth_state, pop_oauth_state,
}
use enterprise_llm_assistant.Security.Sessions.Index.{
  IsIndexed, IsIndexed-empty_store, create-IsIndexed, touch-IsIndexed, delete-IsIndexed,
  delete_all_for_user-IsIndexed, belongs_to, revoked_all,
}

-- One operation. `new_session_id` draws an id that is not in use.
pub data Step (cfg : Settings) : SessionStore → SessionStore → Type 0 where
  created :
      (now : ℕ) (session_id : String) (content : SessionData) (ttl : Option ℕ) (s : SessionStore)
      → Dict.lookup session_id s.sessions ≡ none
      → Step cfg s (create cfg now session_id content ttl s).1
  touched :
      (session_id : String) (ttl : Option ℕ) (s : SessionStore)
      → Step cfg s (touch cfg session_id ttl s).1
  deleted : (session_id : String) (s : SessionStore) → Step cfg s (delete session_id s)
  revoked : (user_id : String) (s : SessionStore) → Step cfg s (delete_all_for_user user_id s).1
  state_set :
      (state : String) (payload : OauthState) (ttl : Option ℕ) (s : SessionStore)
      → Step cfg s (set_oauth_state cfg state payload ttl s).1
  state_popped : (state : String) (s : SessionStore) → Step cfg s (pop_oauth_state state s).1

-- The stores that a process can have.
pub data Reached (cfg : Settings) : SessionStore → Type 0 where
  started : Reached cfg empty_store
  next : {s t : SessionStore} → Reached cfg s → Step cfg s t → Reached cfg t

set_oauth_state-IsIndexed :
    (cfg : Settings) (state : String) (payload : OauthState) (ttl : Option ℕ) {s : SessionStore}
    → IsIndexed s
    → IsIndexed (set_oauth_state cfg state payload ttl s).1
unfolding set_oauth_state ids_of
set_oauth_state-IsIndexed cfg state payload ttl h = record { indexed = h.indexed }

pop_oauth_state-IsIndexed :
    (state : String) {s : SessionStore} → IsIndexed s → IsIndexed (pop_oauth_state state s).1
unfolding pop_oauth_state ids_of
pop_oauth_state-IsIndexed state {s} h = elim (Option-cases (Dict.lookup state s.oauth_states)) [
  | inl e ↦ rw (e, pop_oauth_state) h
  | inr (stored, e) ↦ rw (e, pop_oauth_state) (record { indexed = h.indexed })
]

Step-IsIndexed : {cfg : Settings} {s t : SessionStore} → Step cfg s t → IsIndexed s → IsIndexed t
Step-IsIndexed {cfg} (created now session_id content ttl s fresh) h =
    create-IsIndexed cfg now session_id content ttl fresh h
Step-IsIndexed {cfg} (touched session_id ttl s) h = touch-IsIndexed cfg session_id ttl h
Step-IsIndexed (deleted session_id s) h = delete-IsIndexed session_id h
Step-IsIndexed (revoked user_id s) h = delete_all_for_user-IsIndexed user_id h
Step-IsIndexed {cfg} (state_set state payload ttl s) h =
    set_oauth_state-IsIndexed cfg state payload ttl h
Step-IsIndexed (state_popped state s) h = pop_oauth_state-IsIndexed state h

-- In every store that is reached from the empty one by operations of the store, the index by user covers every session of a user.
pub Reached-IsIndexed : {cfg : Settings} {s : SessionStore} → Reached cfg s → IsIndexed s
Reached-IsIndexed started = IsIndexed-empty_store
Reached-IsIndexed (next r st) = Step-IsIndexed st (Reached-IsIndexed r)

-- After `delete_all_for_user` of a user whose id is not empty, in a store that is reached from the empty one by operations of the store, no session of the user can be read.
pub revoked_everywhere :
    (cfg : Settings) (user_id sid : String) {s : SessionStore}
    → Reached cfg s
    → truthy user_id ≡ true
    → belongs_to user_id (get sid (delete_all_for_user user_id s).1) ≡ false
revoked_everywhere cfg user_id sid r named = revoked_all user_id sid (Reached-IsIndexed r) named
