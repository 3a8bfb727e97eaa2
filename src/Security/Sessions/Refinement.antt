-- ===== src/Security/Sessions/Refinement.antt =====
-- `InMemorySessionStore` refines the contract of a session store.
use enterprise_llm_assistant.Core.Settings.{Settings}
use enterprise_llm_assistant.Security.Sessions.{
  SessionStore, SessionData, StoredSession, empty_store, ids_of, create, touch, get, delete,
  delete_all, delete_all_for_user,
}
use enterprise_llm_assistant.Security.Sessions.Index.{
  belongs_to, contains-add, contains-discard, lookup-delete, contains-ids_of_delete,
}
use enterprise_llm_assistant.Security.SessionContract.{
  View, Change, created, touched, deleted, revoked, nothing, put, remove, revoke, apply, apply_all,
  IsNew, AllNew,
}
use enterprise_llm_assistant.Prelude.{
  ℕ, String, false, ◌&&◌, Option, none, List, [], ◌∷◌, ◌≡◌, refl, ap, ◌∙◌, arith, inl, inr,
}
use enterprise_llm_assistant.Prelude.{==_cases, string_eq, if◌then◌else◌, contains, Option-cases}
use enterprise_llm_assistant.Prelude.Text.{truthy}
use enterprise_llm_assistant.Prelude.Dict
use enterprise_llm_assistant.Prelude.Exec.{Result, ok, Exec, pure, modify, ◌>>=◌, ◌>>◌}

pub record Implements (s : SessionStore) (v : View) : Type 0 where
  pub sessions : (sid : String) → get sid s ≡ v sid
  pub index :
      (user_id sid : String)
      → contains (ids_of user_id s) sid ≡ (truthy user_id && belongs_to user_id (v sid))

pub Implements-empty_store : Implements empty_store nothing
unfolding get ids_of
Implements-empty_store = record {
  sessions = λ sid. ground (arith, Dict.lookup-empty {V = StoredSession} sid);
  index = λ user_id sid. ground (arith, Dict.lookup-empty {V = List String} user_id);
}

create-Implements :
    (cfg : Settings) (now : ℕ) (sid : String) (content : SessionData) (ttl : Option ℕ)
    (s : SessionStore) (v : View)
    → v sid ≡ none
    → Implements s v
    → Implements
        (create cfg now sid content ttl s).1
        (put sid (record { content = content; created_at = now }) v)
unfolding create ids_of get
create-Implements cfg now sid content ttl s v fresh h = record {
  sessions = λ k. grind (arith, Dict.lookup-insert, h.sessions);
  index = λ user_id k. grind (arith, Dict.lookup-insert, contains-add, h.index);
}

touch-Implements :
    (cfg : Settings) (sid : String) (ttl : Option ℕ) (s : SessionStore) (v : View)
    → Implements s v
    → Implements (touch cfg sid ttl s).1 v
unfolding touch ids_of get
touch-Implements cfg sid ttl s v h = record {
  sessions = λ k. grind (arith, Dict.lookup-insert, h.sessions);
  index = λ user_id k. grind (arith, h.index);
}

ids_of-delete :
    (d u : String) (s : SessionStore) (v : View)
    → Implements s v
    → contains (ids_of u (delete d s)) d ≡ false
unfolding ids_of delete get
ids_of-delete d u s v h = elim (Option-cases (Dict.lookup d s.sessions)) [
  | inl e ↦ rw (e, delete) (ground (arith, h.index u d, h.sessions d))
  | inr (st, e) ↦
      rw (e, delete) (grind (arith, Dict.lookup-insert, contains-discard, h.index, h.sessions))
]

delete-Implements :
    (d : String) (s : SessionStore) (v : View)
    → Implements s v
    → Implements (delete d s) (remove d v)
unfolding get
delete-Implements d s v h = record {
  sessions = λ k. ground (arith, lookup-delete d k s, h.sessions k);
  index = λ user_id k. elim (==_cases k d) [
    | inl (q, p) ↦ ground (arith, ids_of-delete d user_id s v h)
    | inr (q, p) ↦ ground (arith, contains-ids_of_delete d k user_id s, h.index user_id k)
  ];
}

Implements-same :
    (s : SessionStore) (v w : View)
    → ((sid : String) → v sid ≡ w sid)
    → Implements s v
    → Implements s w
Implements-same s v w same h = record {
  sessions = λ sid. h.sessions sid ∙ same sid;
  index = λ user_id sid.
      h.index user_id sid ∙ ap (λ x. truthy user_id && belongs_to user_id x) (same sid);
}

-- The view without the sessions of a list.
abbrev without : List String → View → View
without ids v sid = if contains ids sid then none else v sid

delete_all-Implements :
    (ids : List String) (s : SessionStore) (v : View)
    → Implements s v
    → Implements (delete_all ids s) (without ids v)
unfolding delete_all
delete_all-Implements [] s v h = h
delete_all-Implements (d ∷ ids) s v h =
    Implements-same _ _ _ (λ k. ground arith)
      (delete_all-Implements ids (delete d s) (remove d v) (delete-Implements d s v h))

delete_all_for_user-Implements :
    (user_id : String) (s : SessionStore) (v : View)
    → Implements s v
    → Implements (delete_all_for_user user_id s).1 (revoke user_id v)
unfolding delete_all_for_user
delete_all_for_user-Implements user_id s v h =
    Implements-same _ _ _ (λ k. ground (arith, h.index user_id k))
      (delete_all-Implements (ids_of user_id s) s v h)

module _ (cfg : Settings) where
  -- The store's method for a change.
  unfoldable pub perform : Change → Exec SessionStore Unit
  perform (created now session_id content ttl) = do
    _ ← create cfg now session_id content ttl
    pure tt
  perform (touched session_id ttl) = touch cfg session_id ttl
  perform (deleted session_id) = modify (delete session_id)
  perform (revoked user_id) = do _ ← delete_all_for_user user_id; pure tt

  unfoldable pub perform_all : List Change → Exec SessionStore Unit
  perform_all [] = pure tt
  perform_all (change ∷ changes) = do perform change; perform_all changes

  -- A change that returns and leaves the store as the view says.
  abbrev Leaves : View → Result (Unit {0}) × SessionStore → Type 0
  Leaves v (r, t) = (r ≡ ok tt) × Implements t v

  perform-Leaves :
      (change : Change) (s : SessionStore) (v : View)
      → Implements s v
      → IsNew change v
      → Leaves (apply change v) (perform change s)
  unfolding perform apply create delete_all_for_user touch
  perform-Leaves (created now sid content ttl) s v h fresh =
      (ground arith, ground (arith, create-Implements cfg now sid content ttl s v fresh h))
  perform-Leaves (touched sid ttl) s v h fresh = (ground arith, touch-Implements cfg sid ttl s v h)
  perform-Leaves (deleted sid) s v h fresh = (refl, delete-Implements sid s v h)
  perform-Leaves (revoked user_id) s v h fresh =
      (refl, delete_all_for_user-Implements user_id s v h)

  pub perform_all-Leaves :
      (changes : List Change) (s : SessionStore) (v : View)
      → Implements s v
      → AllNew changes v
      → Leaves (apply_all changes v) (perform_all changes s)
  unfolding perform_all apply_all
  perform_all-Leaves [] s v h fresh = (refl, h)
  perform_all-Leaves (change ∷ changes) s v h (new, fresh) =
      let (answer, after) = perform-Leaves change s v h new in
      rw answer (perform_all-Leaves changes (perform change s).1 (apply change v) after fresh)
