-- ===== src/Security/RedisSessions/Expiry.antt =====
-- `RedisSessionStore` on a server that drops keys when their time is over: `touch` renews a session and not the
-- index of its user.
use enterprise_llm_assistant.Core.Settings.{Settings, or_default}
use enterprise_llm_assistant.Core.Json.Values.{JsonText}
use enterprise_llm_assistant.Clients.Redis as Client
use enterprise_llm_assistant.Clients.Redis.{Redis}
use enterprise_llm_assistant.Security.Sessions.{SessionData, Session}
use enterprise_llm_assistant.Security.RedisSessions.{
  session_key, user_key, get, create, touch, delete_each, delete_all_for_user,
}
use enterprise_llm_assistant.Security.RedisSessions.Keys.{
  IsLawful, holds_set, holds_set-user_key, holds_set-session_key, session_key-user_key,
  user_key-session_key,
}
use enterprise_llm_assistant.Security.RedisSessions.Refinement.{
  unless_null-stored, data_of, stored, ReadsBack, owner_of-data_of,
}
use enterprise_llm_assistant.Prelude.{
  ℕ, ◌+◌, ◌-◌, ◌≤◌, ◌<◌, String, true, false, Option, none, some, [], ◌∷◌, ◌≡◌, ◌≢◌, refl, ap, ◌∙◌,
  arith,
}
use enterprise_llm_assistant.Prelude.{◌==◌, string_eq, if◌then◌else◌}
use enterprise_llm_assistant.Prelude.Text.{truthy}
use enterprise_llm_assistant.Prelude.Exec.{ok}

-- What the server promises of the time that a key has left.
pub record Timed (R : Redis) : Type 0 where
  -- Seconds go by.
  pub wait : ℕ → R.State → R.State
  -- The command TTL; `none` for a key that is not there or does not expire.
  pub left : String → R.State → Option ℕ
  pub left-set :
      (j k value : String) (ttl : ℕ) (s : R.State)
      → holds_set k ≡ false
      → 1 ≤ ttl
      → left j (R.set k value (some ttl) s) ≡ (if j == k then some ttl else left j s)
  pub left-sadd : (j k m : String) (s : R.State) → j ≢ k → left j (R.sadd k (m ∷ []) s) ≡ left j s
  pub left-expire :
      (k : String) (ttl : ℕ) (s : R.State)
      → holds_set k ≡ true
      → R.smembers k s ≢ []
      → 1 ≤ ttl
      → left k (R.expire k ttl s) ≡ some ttl
  pub left-expire_other :
      (j k : String) (ttl : ℕ) (s : R.State) → j ≢ k → left j (R.expire k ttl s) ≡ left j s
  pub left-wait :
      (j : String) (t d : ℕ) (s : R.State)
      → left j s ≡ some t
      → d < t
      → left j (wait d s) ≡ some (t - d)
  pub get-wait :
      (j : String) (t d : ℕ) (s : R.State)
      → holds_set j ≡ false
      → left j s ≡ some t
      → d < t
      → R.get j (wait d s) ≡ R.get j s
  pub smembers-wait :
      (j : String) (t d : ℕ) (s : R.State)
      → holds_set j ≡ true
      → left j s ≡ some t
      → t ≤ d
      → R.smembers j (wait d s) ≡ []

module _ (R : Redis) (J : JsonText) (cfg : Settings) (isoformat : ℕ → String) where
  -- A login, and a request some seconds later, which touches the session, and more seconds.
  abbrev pub login_and_touch : Timed R → ℕ → String → SessionData → ℕ → ℕ → R.State → R.State
  login_and_touch T now sid content a b s =
      T.wait b
        (touch R J cfg sid none
          (T.wait a (create R J cfg (isoformat now) sid (data_of content) none s).1)).1

  module _ (law : IsLawful R) (T : Timed R) (positive : 1 ≤ cfg.session_ttl_seconds) (now : ℕ)
      (sid : String) (content : SessionData)
      (back : ReadsBack R J cfg isoformat (record { content = content; created_at = now })) where
    abbrev session : Session
    session = record { content = content; created_at = now }

    -- The text of the session is there, for as long as a session lives, and the index as long as it says.
    record Alive (s : R.State) (index : ℕ) : Type 0 where
      there : R.get (session_key sid) s ≡ some (J.dumps (stored R J cfg isoformat session))
      session_left : T.left (session_key sid) s ≡ some cfg.session_ttl_seconds
      index_left : T.left (user_key content.user_id) s ≡ some index

    get_of :
        (s : R.State)
        → R.get (session_key sid) s ≡ some (J.dumps (stored R J cfg isoformat session))
        → get R J sid s ≡ (ok (some (stored R J cfg isoformat session)), s)
    unfolding get Client.get_json
    get_of s there =
        ground (arith, back.some_text, back.loaded, unless_null-stored R J cfg isoformat session)

    created-Alive :
        (s : R.State)
        → truthy content.user_id ≡ true
        → Alive
            (create R J cfg (isoformat now) sid (data_of content) none s).1
            cfg.session_ttl_seconds
    unfolding create Client.set_json Client.sadd stored or_default
    created-Alive s named =
        let k = session_key sid in
        let u = user_key content.user_id in
        let t = cfg.session_ttl_seconds in
        let written = J.dumps (stored R J cfg isoformat session) in
        let s1 = R.set k written (some t) s in
        let s2 = R.sadd u (sid ∷ []) s1 in
        let apart : k ≢ u = (ground (arith, session_key-user_key sid content.user_id)) in
        let owner = owner_of-data_of R J cfg isoformat content in
        record {
          there = ground (
            arith,
            owner,
            law.get-expire k u t s2 positive,
            law.get-sadd k u sid s1 (holds_set-session_key sid)
                (holds_set-user_key content.user_id),
            law.get-set k k written t s (holds_set-session_key sid) positive,
          );
          session_left = ground (
            arith,
            owner,
            T.left-expire_other k u t s2 apart,
            T.left-sadd k u sid s1 apart,
            T.left-set k k written t s (holds_set-session_key sid) positive,
          );
          index_left = ground (
            arith,
            owner,
            T.left-expire u t s2 (holds_set-user_key content.user_id),
            law.smembers-sadd sid u u sid s1 (holds_set-user_key content.user_id)
                (holds_set-user_key content.user_id),
          );
        }

    touched-Alive :
        (s : R.State) (a : ℕ)
        → Alive s cfg.session_ttl_seconds
        → a < cfg.session_ttl_seconds
        → Alive (touch R J cfg sid none (T.wait a s)).1 (cfg.session_ttl_seconds - a)
    unfolding touch Client.set_json or_default
    touched-Alive s a h short =
        let k = session_key sid in
        let u = user_key content.user_id in
        let t = cfg.session_ttl_seconds in
        let written = J.dumps (stored R J cfg isoformat session) in
        let kept = T.get-wait k t a s (holds_set-session_key sid) h.session_left short in
        rw (get_of (T.wait a s) (kept ∙ h.there)) (record {
          there =
              ground (
                arith,
                law.get-set k k written t (T.wait a s) (holds_set-session_key sid) positive,
              );
          session_left =
              ground
                (arith, T.left-set k k written t (T.wait a s) (holds_set-session_key sid) positive);
          index_left = ground (
            arith,
            user_key-session_key content.user_id sid,
            T.left-set u k written t (T.wait a s) (holds_set-session_key sid) positive,
            T.left-wait u t a s h.index_left short,
          );
        })

    -- Revoking a user whose index is gone.
    revoke_without_index :
        (s : R.State)
        → R.smembers (user_key content.user_id) s ≡ []
        → R.get (session_key sid) s ≡ some (J.dumps (stored R J cfg isoformat session))
        → ((delete_all_for_user R J content.user_id s).0 ≡ ok 0)
          × (R.get (session_key sid) (delete_all_for_user R J content.user_id s).1
              ≡ some (J.dumps (stored R J cfg isoformat session)))
    unfolding delete_all_for_user delete_each
    revoke_without_index s gone there = rw gone (
      refl,
      ground (
        arith,
        session_key-user_key sid content.user_id,
        law.get-delete (session_key sid) (user_key content.user_id) s (holds_set-session_key sid),
      ),
    )

    -- A session outlives the revocation of its user, on a server that drops keys when their time is over. If a
    -- request touches a session whose JSON is read back before its time is over, and the time from the login, though
    -- not the time from that request, has passed when the user, whose id is not empty, is revoked, then
    -- `delete_all_for_user` finds no session, returns 0, and the session can still be read.
    pub touched_session_survives :
        (a b : ℕ) (s : R.State)
        → truthy content.user_id ≡ true
        → a < cfg.session_ttl_seconds
        → b < cfg.session_ttl_seconds
        → cfg.session_ttl_seconds ≤ a + b
        → let t = login_and_touch T now sid content a b s in
          ((delete_all_for_user R J content.user_id t).0 ≡ ok 0)
          × ((get R J sid (delete_all_for_user R J content.user_id t).1).0
              ≡ ok (some (stored R J cfg isoformat session)))
    touched_session_survives a b s named short shorter long =
        let login = created-Alive s named in
        let h =
          touched-Alive (create R J cfg (isoformat now) sid (data_of content) none s).1 a login
            short in
        let before =
          (touch R J cfg sid none
            (T.wait a (create R J cfg (isoformat now) sid (data_of content) none s).1)).1 in
        let t = cfg.session_ttl_seconds in
        let kept =
          T.get-wait (session_key sid) t b before (holds_set-session_key sid) h.session_left
            shorter in
        let gone =
          T.smembers-wait (user_key content.user_id) (t - a) b before
            (holds_set-user_key content.user_id) h.index_left (omega arith) in
        let (none_found, there) = revoke_without_index (T.wait b before) gone (kept ∙ h.there) in
        (none_found, ap (λ x. x.0) (get_of _ there))
