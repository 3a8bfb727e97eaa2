-- ===== src/Security/RedisSessions/Agreement.antt =====
-- The two session stores of app/security/sessions.py beside each other.
use enterprise_llm_assistant.Core.Settings.{Settings}
use enterprise_llm_assistant.Core.Json.Values.{JsonText}
use enterprise_llm_assistant.Clients.Redis.{Redis}
use enterprise_llm_assistant.Security.Sessions
use enterprise_llm_assistant.Security.Sessions.{empty_store}
use enterprise_llm_assistant.Security.Sessions.Refinement as Memory
use enterprise_llm_assistant.Security.SessionContract.{Change, nothing, AllNew}
use enterprise_llm_assistant.Security.RedisSessions.{get}
use enterprise_llm_assistant.Security.RedisSessions.Keys.{IsLawful}
use enterprise_llm_assistant.Security.RedisSessions.Refinement.{value, Represents}
use enterprise_llm_assistant.Security.RedisSessions.Refinement.Runs.{
  AllReadable, perform_all, perform_all-refines,
}
use enterprise_llm_assistant.Prelude.{ℕ, ◌≤◌, String, List, ◌≡◌, ap, sym, ◌∙◌}
use enterprise_llm_assistant.Prelude.Exec.{ok}

module _ (R : Redis) (J : JsonText) (cfg : Settings) (isoformat : ℕ → String) where
  -- The two stores, both begun empty, answer alike, where the server keeps the laws of its commands, the time to live
  -- is at least a second, and the JSON of the sessions is read back: after the same logins, touches, deletions and
  -- revocations, in which every id that is drawn is new, `RedisSessionStore.get` gives what was stored of the
  -- session that `InMemorySessionStore.get` gives, and nothing where that gives nothing. No key expires in between.
  pub stores_agree :
      IsLawful R
      → 1 ≤ cfg.session_ttl_seconds
      → (changes : List Change) (s : R.State) (sid : String)
      → Represents R J cfg isoformat s nothing
      → AllNew changes nothing
      → AllReadable R J cfg isoformat changes
      → (get R J sid (perform_all R J cfg isoformat changes s).1).0
        ≡ ok (
            value R J cfg isoformat
              (Sessions.get sid (Memory.perform_all cfg changes empty_store).1))
  stores_agree law positive changes s sid h fresh back =
      let (answer, reads) =
        perform_all-refines R J cfg isoformat law positive changes s nothing h fresh back in
      let (done, m) =
        Memory.perform_all-Leaves cfg changes empty_store nothing Memory.Implements-empty_store
          fresh in
      reads sid ∙ ap (λ v. ok (value R J cfg isoformat v)) (sym (m.sessions sid))
