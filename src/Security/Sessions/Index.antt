-- ===== src/Security/Sessions/Index.antt =====
-- The index of sessions by user covers every session, so that `delete_all_for_user` leaves none.
use enterprise_llm_assistant.Core.Settings.{Settings}
use enterprise_llm_assistant.Prelude.{
  ℕ, String, Bool, true, false, Option, none, some, List, [], ◌∷◌, ◌++◌, ◌≡◌, ◌≢◌, refl, arith, inl,
  inr, ◌||◌,
}
use enterprise_llm_assistant.Prelude.{◌==◌, string_eq, if◌then◌else◌, contains, Option-cases}
use enterprise_llm_assistant.Prelude.Text.{truthy}
use enterprise_llm_assistant.Prelude.Dict
use enterprise_llm_assistant.Security.Sessions.{
  SessionStore, SessionData, Session, StoredSession, empty_store, add, discard, ids_of, create,
  touch, get, delete, delete_all, delete_all_for_user,
}

contains-append :
    (x : String) (xs : List String) (y : String)
    → contains (xs ++ y ∷ []) x ≡ (contains xs x || x == y)
contains-append x [] y = ground arith
contains-append x (z ∷ xs) y = ground (arith, contains-append x xs y)

pub contains-add :
    (x y : String) (xs : List String) → contains (add y xs) x ≡ (x == y || contains xs x)
unfolding add
contains-add x y xs = ground (arith, contains-append x xs y)

pub contains-discard :
    (x y : String) (xs : List String)
    → contains (discard y xs) x ≡ (if x == y then false else contains xs x)
unfolding discard
contains-discard x y [] = ground arith
contains-discard x y (z ∷ xs) = ground (arith, contains-discard x y xs)

-- Every session of a user is in the index under that user.
pub record IsIndexed (s : SessionStore) : Type 0 where
  pub indexed :
      (sid : String) (stored : StoredSession)
      → Dict.lookup sid s.sessions ≡ some stored
      → truthy stored.session.content.user_id ≡ true
      → contains (ids_of stored.session.content.user_id s) sid ≡ true

pub IsIndexed-empty_store : IsIndexed empty_store
IsIndexed-empty_store = record {
  indexed = λ sid stored p. cc (Dict.lookup-empty {V = StoredSession} sid);
}

pub create-IsIndexed :
    (cfg : Settings) (now : ℕ) (session_id : String) (content : SessionData) (ttl : Option ℕ)
    {s : SessionStore}
    → Dict.lookup session_id s.sessions ≡ none
    → IsIndexed s
    → IsIndexed (create cfg now session_id content ttl s).1
unfolding create ids_of
create-IsIndexed cfg now session_id content ttl {s} fresh h = record {
  indexed = λ sid stored p t. grind (arith, Dict.lookup-insert, contains-add, h.indexed);
}

pub touch-IsIndexed :
    (cfg : Settings) (session_id : String) (ttl : Option ℕ) {s : SessionStore}
    → IsIndexed s
    → IsIndexed (touch cfg session_id ttl s).1
unfolding touch ids_of
touch-IsIndexed cfg session_id ttl {s} h = record {
  indexed = λ sid stored p t. grind (arith, Dict.lookup-insert, h.indexed);
}

-- Deleting one session takes no other out of the index.
pub contains-ids_of_delete :
    (d sid u : String) (s : SessionStore)
    → sid ≢ d
    → contains (ids_of u (delete d s)) sid ≡ contains (ids_of u s) sid
unfolding delete ids_of
contains-ids_of_delete d sid u s differ = elim (Option-cases (Dict.lookup d s.sessions)) [
  | inl e ↦ rw (e, delete)
  | inr (st, e) ↦ rw (e, delete) (grind (arith, Dict.lookup-insert, contains-discard))
]

pub lookup-delete :
    (d sid : String) (s : SessionStore)
    → Dict.lookup sid (delete d s).sessions
      ≡ (if sid == d then none else Dict.lookup sid s.sessions)
unfolding delete
lookup-delete d sid s = ground (arith, Dict.lookup-erase sid d s.sessions)

pub get-delete_self : (d : String) (s : SessionStore) → get d (delete d s) ≡ none
unfolding get
get-delete_self d s = ground (arith, lookup-delete d d s)

pub delete-IsIndexed : (d : String) {s : SessionStore} → IsIndexed s → IsIndexed (delete d s)
delete-IsIndexed d {s} h = record {
  indexed = λ sid stored p t. ground (
    arith,
    lookup-delete d sid s,
    h.indexed sid stored,
    contains-ids_of_delete d sid stored.session.content.user_id s,
  );
}

pub lookup-delete_all :
    (ids : List String) (sid : String) (s : SessionStore)
    → Dict.lookup sid (delete_all ids s).sessions
      ≡ (if contains ids sid then none else Dict.lookup sid s.sessions)
unfolding delete_all
lookup-delete_all [] sid s = refl
lookup-delete_all (d ∷ ids) sid s =
    ground (arith, lookup-delete_all ids sid (delete d s), lookup-delete d sid s)

delete_all-IsIndexed :
    (ids : List String) {s : SessionStore} → IsIndexed s → IsIndexed (delete_all ids s)
unfolding delete_all
delete_all-IsIndexed [] h = h
delete_all-IsIndexed (d ∷ ids) h = delete_all-IsIndexed ids (delete-IsIndexed d h)

pub delete_all_for_user-IsIndexed :
    (user_id : String) {s : SessionStore}
    → IsIndexed s
    → IsIndexed (delete_all_for_user user_id s).1
unfolding delete_all_for_user
delete_all_for_user-IsIndexed user_id {s} h = delete_all-IsIndexed (ids_of user_id s) h

-- The user that a session belongs to, if the session is there.
abbrev pub belongs_to : String → Option Session → Bool
belongs_to user_id none = false
belongs_to user_id (some session) = session.content.user_id == user_id

-- From a store whose index covers its sessions, revoking a user leaves none of the user's sessions
-- readable.
pub revoked_all :
    (user_id sid : String) {s : SessionStore}
    → IsIndexed s
    → truthy user_id ≡ true
    → belongs_to user_id (get sid (delete_all_for_user user_id s).1) ≡ false
unfolding delete_all_for_user get
revoked_all user_id sid {s} h named = elim (Option-cases (Dict.lookup sid s.sessions)) [
  | inl e ↦ ground (arith, lookup-delete_all (ids_of user_id s) sid s)
  | inr (st, e) ↦ ground (arith, lookup-delete_all (ids_of user_id s) sid s, h.indexed sid st)
]

-- `delete_all_for_user` leaves a session that is not in the user's index as it was.
pub revoked_only :
    (user_id sid : String) (s : SessionStore)
    → contains (ids_of user_id s) sid ≡ false
    → get sid (delete_all_for_user user_id s).1 ≡ get sid s
unfolding delete_all_for_user get
revoked_only user_id sid s h = ground (arith, lookup-delete_all (ids_of user_id s) sid s)
