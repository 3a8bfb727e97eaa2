-- ===== src/Security/RedisSessions/Refinement.antt =====
-- `RedisSessionStore` refines the contract of a session store.
pub mod Deletion
pub mod Runs
use enterprise_llm_assistant.Core.Settings.{Settings, or_default}
use enterprise_llm_assistant.Core.Json.{Json, text}
use enterprise_llm_assistant.Core.Json.Values.{JsonText, get_json, str, text_or_null}
use enterprise_llm_assistant.Clients.Redis as Client
use enterprise_llm_assistant.Clients.Redis.{Redis}
use enterprise_llm_assistant.Security.Sessions.{SessionData, Session}
use enterprise_llm_assistant.Security.Sessions.Index.{belongs_to}
use enterprise_llm_assistant.Security.SessionContract.{View, put}
use enterprise_llm_assistant.Security.RedisSessions.{
  session_key, user_key, owner_of, payload, get, create, touch,
}
use enterprise_llm_assistant.Security.RedisSessions.Keys.{
  IsLawful, holds_set-user_key, holds_set-session_key, session_key-==, user_key-==,
}
use enterprise_llm_assistant.Prelude.{
  ℕ, zero, suc, ◌≤◌, String, Bool, true, false, ◌&&◌, Option, none, some, [], ◌∷◌, ◌≡◌, refl, ap,
  ◌∙◌, arith, inl, inr,
}
use enterprise_llm_assistant.Prelude.{◌==◌, ==_cases, string_eq, contains, Option-cases}
use enterprise_llm_assistant.Prelude.Text.{truthy}
use enterprise_llm_assistant.Prelude.Dict
use enterprise_llm_assistant.Prelude.Dict.{Dict}
use enterprise_llm_assistant.Prelude.Exec.{Result, ok, raised, Exec}

-- The dict that `AuthService._create_session` passes.
unfoldable pub data_of : SessionData → Dict String Json
data_of d =
    ("user_id", text d.user_id)
    ∷ ("role", text d.role)
    ∷ ("email", text d.email)
    ∷ ("ip", text_or_null d.ip)
    ∷ ("user_agent", text d.user_agent)
    ∷ []

module _ (R : Redis) (J : JsonText) (cfg : Settings) (isoformat : ℕ → String) where
  -- What the store holds of a session.
  unfoldable pub stored : Session → Json
  stored x = payload R J cfg (isoformat x.created_at) (data_of x.content)

  unfoldable pub entry : Option Session → Option String
  entry none = none
  entry (some x) = some (J.dumps (stored x))

  unfoldable pub value : Option Session → Option Json
  value none = none
  value (some x) = some (stored x)

  -- `json.loads` reads what `json.dumps` wrote of a session.
  pub record ReadsBack (x : Session) : Type 0 where
    pub some_text : truthy (J.dumps (stored x)) ≡ true
    pub loaded : J.loads (J.dumps (stored x)) ≡ some (stored x)

  pub record Represents (s : R.State) (v : View) : Type 0 where
    pub entries : (sid : String) → R.get (session_key sid) s ≡ entry (v sid)
    pub index :
        (user_id sid : String)
        → contains (R.smembers (user_key user_id) s) sid
          ≡ (truthy user_id && belongs_to user_id (v sid))
    pub readable : (sid : String) (x : Session) → v sid ≡ some x → ReadsBack x

  pub owner_of-data_of : (d : SessionData) → owner_of R J (data_of d) ≡ d.user_id
  unfolding data_of Dict.lookup string_eq str
  owner_of-data_of d = refl

  pub unless_null-stored : (x : Session) → Client.unless_null (stored x) ≡ some (stored x)
  unfolding stored
  unless_null-stored x = refl

  pub get-Represents :
      (sid : String) (s : R.State) (v : View)
      → Represents s v
      → get R J sid s ≡ (ok (value (v sid)), s)
  unfolding get Client.get_json value entry
  get-Represents sid s v h = elim (Option-cases (v sid)) [
    | inl e ↦ ground (arith, h.entries sid)
    | inr (x, e) ↦
        let back = h.readable sid x e in
        ground (arith, h.entries sid, back.some_text, back.loaded, unless_null-stored x)
  ]

  pub Represents-same :
      (s : R.State) (v w : View)
      → ((sid : String) → v sid ≡ w sid)
      → Represents s v
      → Represents s w
  Represents-same s v w same h = record {
    entries = λ sid. h.entries sid ∙ ap entry (same sid);
    index = λ user_id sid.
        h.index user_id sid ∙ ap (λ x. truthy user_id && belongs_to user_id x) (same sid);
    readable = λ sid x e. h.readable sid x (same sid ∙ e);
  }

  -- A change of the store that returns and leaves it as the view says.
  abbrev pub Leaves : {A : Type 0} → A → View → Result A × R.State → Type 0
  Leaves a v (r, t) = (r ≡ ok a) × Represents t v

  module _ (law : IsLawful R) (positive : 1 ≤ cfg.session_ttl_seconds) where
    lifetime : (ttl : Option ℕ) → 1 ≤ or_default ttl cfg.session_ttl_seconds
    unfolding or_default
    lifetime none = positive
    lifetime (some zero) = positive
    lifetime (some (suc n)) = omega arith

    pub touch-Leaves :
        (sid : String) (ttl : Option ℕ) (s : R.State) (v : View)
        → Represents s v
        → Leaves tt v (touch R J cfg sid ttl s)
    unfolding touch Client.set_json value entry
    touch-Leaves sid ttl s v h =
        let r = get-Represents sid s v h in
        let t = or_default ttl cfg.session_ttl_seconds in
        elim (Option-cases (v sid)) [
          | inl e ↦ rw (r, e) (refl, h)
          | inr (x, e) ↦
              rw (r, e)
                (
                  refl,
                  record {
                    entries = λ k. ground (
                      arith,
                      h.entries k,
                      law.get-set (session_key k) (session_key sid) (J.dumps (stored x)) t s
                          (holds_set-session_key k) (lifetime ttl),
                      session_key-== k sid,
                    );
                    index = λ user_id k.
                        law.smembers-set k (user_key user_id) (session_key sid) (J.dumps (stored x))
                          t s (holds_set-user_key user_id) (holds_set-session_key sid)
                        ∙ h.index user_id k;
                    readable = h.readable;
                  },
                )
        ]

    pub create-Leaves :
        (now : ℕ) (sid : String) (content : SessionData) (ttl : Option ℕ) (s : R.State) (v : View)
        → v sid ≡ none
        → ReadsBack (record { content = content; created_at = now })
        → Represents s v
        → Leaves sid
            (put sid (record { content = content; created_at = now }) v)
            (create R J cfg (isoformat now) sid (data_of content) ttl s)
    unfolding create Client.set_json Client.sadd entry stored
    create-Leaves now sid content ttl s v fresh back h =
        let x : Session = record { content = content; created_at = now } in
        let t = or_default ttl cfg.session_ttl_seconds in
        let s1 = R.set (session_key sid) (J.dumps (stored x)) (some t) s in
        let u = user_key content.user_id in
        let s2 = R.sadd u (sid ∷ []) s1 in
        (
          refl,
          record {
            entries = λ k. ground (
              arith,
              h.entries k,
              owner_of-data_of content,
              session_key-== k sid,
              law.get-expire (session_key k) u t s2 (lifetime ttl),
              law.get-sadd (session_key k) u sid s1 (holds_set-session_key k)
                  (holds_set-user_key content.user_id),
              law.get-set (session_key k) (session_key sid) (J.dumps (stored x)) t s
                  (holds_set-session_key k) (lifetime ttl),
            );
            index = λ user_id k. ground (
              arith,
              h.index user_id k,
              owner_of-data_of content,
              user_key-== user_id content.user_id,
              law.smembers-expire k (user_key user_id) u t s2 (lifetime ttl),
              law.smembers-sadd k (user_key user_id) u sid s1 (holds_set-user_key user_id)
                  (holds_set-user_key content.user_id),
              law.smembers-set k (user_key user_id) (session_key sid) (J.dumps (stored x)) t s
                  (holds_set-user_key user_id) (holds_set-session_key sid),
            );
            readable = λ k y e. elim (==_cases k sid) [
              | inl (q, p) ↦ ground (arith, back)
              | inr (q, p) ↦ h.readable k y (ground arith)
            ];
          },
        )
