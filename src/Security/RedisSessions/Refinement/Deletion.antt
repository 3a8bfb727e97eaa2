-- ===== src/Security/RedisSessions/Refinement/Deletion.antt =====
-- Deleting a session and revoking a user in `RedisSessionStore`.
use enterprise_llm_assistant.Core.Settings.{Settings}
use enterprise_llm_assistant.Core.Json.{text}
use enterprise_llm_assistant.Core.Json.Values.{
  JsonText, dict_of-fields_of, get_json, is_truthy, str,
}
use enterprise_llm_assistant.Clients.Redis as Client
use enterprise_llm_assistant.Clients.Redis.{Redis}
use enterprise_llm_assistant.Security.Sessions.{Session}
use enterprise_llm_assistant.Security.SessionContract.{View, remove, revoke}
use enterprise_llm_assistant.Security.RedisSessions.{
  session_key, user_key, forget, delete, delete_each, delete_all_for_user,
}
use enterprise_llm_assistant.Security.RedisSessions.Keys.{
  IsLawful, holds_set-user_key, holds_set-session_key, session_key-==, user_key-==,
  session_key-user_key, user_key-session_key,
}
use enterprise_llm_assistant.Prelude.{
  ℕ, String, none, some, List, [], ◌∷◌, ◌≡◌, refl, arith, inl, inr,
}
use enterprise_llm_assistant.Prelude.{
  ==_cases, string_eq, if◌then◌else◌, contains, length, Option-cases,
}
use enterprise_llm_assistant.Prelude.Text.{truthy}
use enterprise_llm_assistant.Prelude.Dict
use enterprise_llm_assistant.Prelude.Dict.{Dict}
use enterprise_llm_assistant.Prelude.Exec.{ok}
use enterprise_llm_assistant.Security.RedisSessions.Refinement.{
  data_of, stored, entry, value, Represents, get-Represents, Represents-same, Leaves,
}

module _ (R : Redis) (J : JsonText) (cfg : Settings) (isoformat : ℕ → String) where
  forget-stored :
      (sid : String) (x : Session) (s : R.State)
      → forget R J sid (some (stored R J cfg isoformat x)) s ≡ (
        ok tt,
        if truthy x.content.user_id then R.srem (user_key x.content.user_id) (sid ∷ []) s else s,
      )
  unfolding forget stored data_of Dict.merged Dict.insert Dict.lookup string_eq get_json is_truthy
      str Client.srem
  forget-stored sid x s =
      rw
        (dict_of-fields_of
          (Dict.merged (data_of x.content) (("created_at", text (isoformat x.created_at)) ∷ [])))
        refl

  module _ (law : IsLawful R) where
    pub delete-Leaves :
        (sid : String) (s : R.State) (v : View)
        → Represents R J cfg isoformat s v
        → Leaves R J cfg isoformat tt (remove sid v) (delete R J sid s)
    unfolding delete value entry
    delete-Leaves sid s v h =
        let r = get-Represents R J cfg isoformat sid s v h in
        let s1 = R.delete (session_key sid) s in
        elim (Option-cases (v sid)) [
          | inl e ↦
              rw (r, e)
                (
                  refl,
                  record {
                    entries = λ k. ground (
                      arith,
                      h.entries k,
                      session_key-== k sid,
                      law.get-delete (session_key k) (session_key sid) s (holds_set-session_key k),
                    );
                    index = λ user_id k. ground (
                      arith,
                      h.index user_id k,
                      user_key-session_key user_id sid,
                      law.smembers-delete k (user_key user_id) (session_key sid) s
                          (holds_set-user_key user_id),
                    );
                    readable = λ k y q. h.readable k y (ground arith);
                  },
                )
          | inr (x, e) ↦
              let u = user_key x.content.user_id in
              rw (r, e, forget-stored sid x s1)
                (
                  refl,
                  record {
                    entries = λ k. ground (
                      arith,
                      h.entries k,
                      session_key-== k sid,
                      law.get-srem (session_key k) u sid s1 (holds_set-session_key k)
                          (holds_set-user_key x.content.user_id),
                      law.get-delete (session_key k) (session_key sid) s (holds_set-session_key k),
                    );
                    index = λ user_id k. ground (
                      arith,
                      h.index user_id k,
                      user_key-session_key user_id sid,
                      user_key-== user_id x.content.user_id,
                      law.smembers-srem k (user_key user_id) u sid s1 (holds_set-user_key user_id)
                          (holds_set-user_key x.content.user_id),
                      law.smembers-delete k (user_key user_id) (session_key sid) s
                          (holds_set-user_key user_id),
                    );
                    readable = λ k y q. h.readable k y (ground arith);
                  },
                )
        ]

    -- The view without the sessions of a list.
    abbrev without : List String → View → View
    without ids v sid = if contains ids sid then none else v sid

    delete_each-Leaves :
        (ids : List String) (s : R.State) (v : View)
        → Represents R J cfg isoformat s v
        → Leaves R J cfg isoformat tt (without ids v) (delete_each R J ids s)
    unfolding delete_each
    delete_each-Leaves [] s v h = (refl, h)
    delete_each-Leaves (sid ∷ ids) s v h =
        let (answer, after) = delete-Leaves sid s v h in
        let (answer', after') = delete_each-Leaves ids (delete R J sid s).1 (remove sid v) after in
        rw answer (answer', Represents-same R J cfg isoformat _ _ _ (λ k. ground arith) after')

    pub delete_all_for_user-Leaves :
        (user_id : String) (s : R.State) (v : View)
        → Represents R J cfg isoformat s v
        → Leaves R J cfg isoformat
            (length (R.smembers (user_key user_id) s))
            (revoke user_id v)
            (delete_all_for_user R J user_id s)
    unfolding delete_all_for_user
    delete_all_for_user-Leaves user_id s v h =
        let ids = R.smembers (user_key user_id) s in
        let (answer, after) = delete_each-Leaves ids s v h in
        let t = (delete_each R J ids s).1 in
        let w =
          Represents-same R J cfg isoformat t (without ids v) (revoke user_id v)
            (λ k. ground (arith, h.index user_id k)) after in
        rw answer (
          refl,
          record {
            entries = λ k. ground (
              arith,
              w.entries k,
              session_key-user_key k user_id,
              law.get-delete (session_key k) (user_key user_id) t (holds_set-session_key k),
            );
            index = λ u k. elim (==_cases u user_id) [
              | inl (q, p) ↦ ground (
                arith,
                user_key-== u user_id,
                law.smembers-delete k (user_key u) (user_key user_id) t (holds_set-user_key u),
              )
              | inr (q, p) ↦ ground (
                arith,
                w.index u k,
                user_key-== u user_id,
                law.smembers-delete k (user_key u) (user_key user_id) t (holds_set-user_key u),
              )
            ];
            readable = w.readable;
          },
        )
