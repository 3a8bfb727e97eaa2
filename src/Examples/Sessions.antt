-- ===== src/Examples/Sessions.antt =====
-- Sessions on a Redis server.
use enterprise_llm_assistant.Core.Settings.{defaults}
use enterprise_llm_assistant.Core.Json.Values.{JsonText}
use enterprise_llm_assistant.Security.Sessions
use enterprise_llm_assistant.Security.Sessions.{SessionData, Session, empty_store}
use enterprise_llm_assistant.Security.Sessions.Refinement as Memory
use enterprise_llm_assistant.Security.SessionContract.{
  Change, created, touched, revoked, nothing, apply_all,
}
use enterprise_llm_assistant.Security.RedisSessions.{get, delete_all_for_user, payload}
use enterprise_llm_assistant.Security.RedisSessions.Refinement.{
  data_of, stored, entry, value, ReadsBack, Represents,
}
use enterprise_llm_assistant.Security.RedisSessions.Refinement.Runs.{
  perform_all, perform_all-refines,
}
use enterprise_llm_assistant.Security.RedisSessions.Agreement.{stores_agree}
use enterprise_llm_assistant.Security.RedisSessions.Expiry.{
  login_and_touch, touched_session_survives,
}
use enterprise_llm_assistant.Prelude.{
  ℕ, String, true, none, some, List, [], ◌∷◌, ◌≡◌, ◌≤◌, refl, arith,
}
use enterprise_llm_assistant.Prelude.{string_eq}
use enterprise_llm_assistant.Prelude.Text.{truthy}
use enterprise_llm_assistant.Prelude.Exec.{ok}
use enterprise_llm_assistant.Examples.Cluster.{three_texts}
use enterprise_llm_assistant.Examples.RedisServer.{
  server, new_server, server-IsLawful, server-Timed,
}

abbrev ada : SessionData
ada = record {
  user_id = "u1";
  role = "user";
  email = "ada@example.com";
  ip = none;
  user_agent = "";
}

abbrev ada_session : Session
ada_session = record { content = ada; created_at = 0 }

abbrev noon : ℕ → String
noon n = "2026-01-01T12:00:00+00:00"

-- The one text that is read is that of the session.
abbrev one_session : JsonText
one_session = record three_texts {
  loads = λ s. some (payload server three_texts defaults (noon 0) (data_of ada));
}

ada-ReadsBack : ReadsBack server one_session defaults noon ada_session
unfolding truthy stored
ada-ReadsBack = record { some_text = refl; loaded = refl }

new_server-Represents : Represents server one_session defaults noon new_server nothing
unfolding entry truthy
new_server-Represents = record {
  entries = λ sid. refl;
  index = λ user_id sid. ground arith;
  readable = λ sid x e. ground arith;
}

abbrev login_and_logout : List Change
login_and_logout = created 0 "s1" ada none ∷ touched "s1" none ∷ revoked "u1" ∷ []

positive : 1 ≤ defaults.session_ttl_seconds
positive = omega arith

perform_all-refines_example :
    ((perform_all server one_session defaults noon login_and_logout new_server).0 ≡ ok tt)
    × ((sid : String)
        → (get server one_session sid
            (perform_all server one_session defaults noon login_and_logout new_server).1).0
          ≡ ok (value server one_session defaults noon (apply_all login_and_logout nothing sid)))
perform_all-refines_example =
    perform_all-refines server one_session defaults noon server-IsLawful positive login_and_logout
      new_server nothing new_server-Represents (refl, (tt, (tt, tt)))
      (ada-ReadsBack, (tt, (tt, tt)))

stores_agree_example :
    (get server one_session "s1"
      (perform_all server one_session defaults noon login_and_logout new_server).1).0
    ≡ ok (
        value server one_session defaults noon
          (Sessions.get "s1" (Memory.perform_all defaults login_and_logout empty_store).1))
stores_agree_example =
    stores_agree server one_session defaults noon server-IsLawful positive login_and_logout
      new_server "s1" new_server-Represents (refl, (tt, (tt, tt))) (ada-ReadsBack, (tt, (tt, tt)))

ada_named : truthy "u1" ≡ true
unfolding truthy
ada_named = refl

-- A request one second before the end of the session, and a revocation two seconds after the request.
touched_session_survives_example :
    let t =
      login_and_touch server one_session defaults noon server-Timed 0 "s1" ada 1209599 2
        new_server in
    ((delete_all_for_user server one_session "u1" t).0 ≡ ok 0)
    × ((get server one_session "s1" (delete_all_for_user server one_session "u1" t).1).0
        ≡ ok (some (stored server one_session defaults noon ada_session)))
touched_session_survives_example =
    touched_session_survives server one_session defaults noon server-IsLawful server-Timed positive
      0 "s1" ada ada-ReadsBack 1209599 2 new_server ada_named (omega arith) (omega arith)
      (omega arith)
