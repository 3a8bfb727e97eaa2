-- ===== src/Security/RedisSessions/Refinement/Runs.antt =====
-- Any sequence of changes of `RedisSessionStore`.
use enterprise_llm_assistant.Core.Settings.{Settings}
use enterprise_llm_assistant.Core.Json.{Json}
use enterprise_llm_assistant.Core.Json.Values.{JsonText}
use enterprise_llm_assistant.Clients.Redis.{Redis}
use enterprise_llm_assistant.Security.SessionContract.{
  View, Change, created, touched, deleted, revoked, apply, apply_all, AllNew, IsNew,
}
use enterprise_llm_assistant.Security.RedisSessions.{
  get, create, touch, delete, delete_all_for_user,
}
use enterprise_llm_assistant.Security.RedisSessions.Keys.{IsLawful}
use enterprise_llm_assistant.Prelude.{ℕ, ◌≤◌, String, Option, List, [], ◌∷◌, ◌≡◌, refl, ap}
use enterprise_llm_assistant.Prelude.{string_eq}
use enterprise_llm_assistant.Prelude.Exec.{Result, ok, Exec, pure, ◌>>=◌, ◌>>◌}
use enterprise_llm_assistant.Security.RedisSessions.Refinement.{
  data_of, value, ReadsBack, Represents, get-Represents, Leaves, touch-Leaves, create-Leaves,
}
use enterprise_llm_assistant.Security.RedisSessions.Refinement.Deletion.{
  delete-Leaves, delete_all_for_user-Leaves,
}

module _ (R : Redis) (J : JsonText) (cfg : Settings) (isoformat : ℕ → String) where
  -- What a change writes is read back.
  abbrev Readable : Change → Type 0
  Readable (created now session_id content ttl) =
      ReadsBack R J cfg isoformat (record { content = content; created_at = now })
  Readable (touched session_id ttl) = Unit
  Readable (deleted session_id) = Unit
  Readable (revoked user_id) = Unit

  abbrev pub AllReadable : List Change → Type 0
  AllReadable [] = Unit
  AllReadable (change ∷ changes) = Readable change × AllReadable changes

  -- The store's method for a change.
  unfoldable pub perform : Change → Exec R.State Unit
  perform (created now session_id content ttl) = do
    _ ← create R J cfg (isoformat now) session_id (data_of content) ttl
    pure tt
  perform (touched session_id ttl) = touch R J cfg session_id ttl
  perform (deleted session_id) = delete R J session_id
  perform (revoked user_id) = do _ ← delete_all_for_user R J user_id; pure tt

  unfoldable pub perform_all : List Change → Exec R.State Unit
  perform_all [] = pure tt
  perform_all (change ∷ changes) = do perform change; perform_all changes

  module _ (law : IsLawful R) (positive : 1 ≤ cfg.session_ttl_seconds) where
    perform-Leaves :
        (change : Change) (s : R.State) (v : View)
        → Represents R J cfg isoformat s v
        → IsNew change v
        → Readable change
        → Leaves R J cfg isoformat tt (apply change v) (perform change s)
    unfolding perform apply
    perform-Leaves (created now sid content ttl) s v h fresh back =
        let (answer, after) =
          create-Leaves R J cfg isoformat law positive now sid content ttl s v fresh back h in
        rw answer (refl, after)
    perform-Leaves (touched sid ttl) s v h fresh back =
        touch-Leaves R J cfg isoformat law positive sid ttl s v h
    perform-Leaves (deleted sid) s v h fresh back = delete-Leaves R J cfg isoformat law sid s v h
    perform-Leaves (revoked user_id) s v h fresh back =
        let (answer, after) = delete_all_for_user-Leaves R J cfg isoformat law user_id s v h in
        rw answer (refl, after)

    perform_all-Leaves :
        (changes : List Change) (s : R.State) (v : View)
        → Represents R J cfg isoformat s v
        → AllNew changes v
        → AllReadable changes
        → Leaves R J cfg isoformat tt (apply_all changes v) (perform_all changes s)
    unfolding perform_all apply_all
    perform_all-Leaves [] s v h fresh back = (refl, h)
    perform_all-Leaves (change ∷ changes) s v h (new, fresh) (reads, back) =
        let (answer, after) = perform-Leaves change s v h new reads in
        rw answer
          (perform_all-Leaves changes (perform change s).1 (apply change v) after fresh back)

    -- The Redis store implements the contract, on a server that keeps the laws of its commands, with a time to live
    -- of at least a second, for sessions whose JSON is read back. From a server that holds what the view says, any
    -- sequence of logins, touches, deletions and revocations in which every id that is drawn is new returns, and
    -- after it `get` answers with the sessions of the view after the same sequence. No key expires in between.
    pub perform_all-refines :
        (changes : List Change) (s : R.State) (v : View)
        → Represents R J cfg isoformat s v
        → AllNew changes v
        → AllReadable changes
        → ((perform_all changes s).0 ≡ ok tt)
          × ((sid : String)
              → (get R J sid (perform_all changes s).1).0
                ≡ ok (value R J cfg isoformat (apply_all changes v sid)))
    perform_all-refines changes s v h fresh back =
        let (answer, after) = perform_all-Leaves changes s v h fresh back in
        (
          answer,
          λ sid.
              ap (λ (r : Result (Option Json) × R.State). r.0)
                (get-Represents R J cfg isoformat sid (perform_all changes s).1
                  (apply_all changes v) after),
        )
