-- ===== src/Services/AuthService/Login.antt =====
-- `AuthService.login`: when it succeeds, what it leaves behind, and how repeated failures lock it.
use enterprise_llm_assistant.Core.Settings.{Settings, or_default}
use enterprise_llm_assistant.Clients.Redis.{Redis}
use enterprise_llm_assistant.Prelude.{String, Bool, true, false, Option, none, some, ◌≡◌, arith}
use enterprise_llm_assistant.Prelude.{string_eq}
use enterprise_llm_assistant.Prelude.Text.{truthy, first, or_empty}
use enterprise_llm_assistant.Prelude.Dict
use enterprise_llm_assistant.Prelude.Exec.{Result, ok, raised}
use enterprise_llm_assistant.Security.AuthLimits.{assert_not_locked, clear_failures}
use enterprise_llm_assistant.Security.Authentication.{Bcrypt}
use enterprise_llm_assistant.Security.Sessions
use enterprise_llm_assistant.Security.Sessions.{SessionStore, Session}
use enterprise_llm_assistant.Repositories.Users
use enterprise_llm_assistant.Repositories.Users.{User, AuditEvent}
use enterprise_llm_assistant.Services.AuthService.{
  Auth, Draws, ClientMeta, SafeUser, sanitize_user, principal_of, password_matches, login,
  resolve_session,
}

module _ (R : Redis) (b : Bcrypt) (cfg : Settings) where
  -- The user that an e-mail address leads to.
  abbrev pub lookup_user : String → Auth R.State → Result (Option User)
  lookup_user email s = (Users.get_by_email email s.users).0

  -- A user, and a password that the account's hash accepts.
  abbrev pub accepts : String → Option User → Bool
  accepts password none = false
  accepts password (some user) = password_matches b password user

  pub get_by_email-state : (email : String) (u : Users.Users) → (Users.get_by_email email u).1 ≡ u
  unfolding Users.get_by_email
  get_by_email-state email u = ground arith

  pub get_by_email-record_audit :
      (email : String) (e : AuditEvent) (u : Users.Users)
      → (Users.get_by_email email (Users.record_audit e u)).0 ≡ (Users.get_by_email email u).0
  unfolding Users.get_by_email Users.record_audit
  get_by_email-record_audit email e u = ground arith

  -- A session of an active user resolves to the user.
  pub resolve_live :
      (sid : String) (s : Auth R.State) (session : Session) (user : User)
      → truthy sid ≡ true
      → Sessions.get sid s.sessions ≡ some session
      → Dict.lookup session.content.user_id s.users.users ≡ some user
      → user.is_active ≡ true
      → (resolve_session R b cfg (some sid) s).0 ≡ ok (some (principal_of user))
  unfolding resolve_session Users.get_by_id Sessions.touch
  resolve_live sid s session user named there filed active = ground arith

  module _ (d : Draws) (email password : String) (meta : ClientMeta) where
    -- A login that is let in and finds an active user whose password it has.
    pub login_succeeds :
        (s : Auth R.State) (user : User)
        → (assert_not_locked R cfg d.checked_at email s.lockout).0 ≡ ok tt
        → lookup_user email s ≡ ok (some user)
        → password_matches b password user ≡ true
        → user.is_active ≡ true
        → (login R b cfg d email password meta s).0 ≡ ok (sanitize_user user, d.session_id)
    unfolding login Sessions.create clear_failures
    login_succeeds s user unlocked there matching active = ground arith

    -- A login that returns was not locked out, found a user under the e-mail address, had a password that
    -- the user's hash accepts, and the user is active; what it returns is that user, sanitized, and the
    -- session's id.
    pub login_needs :
        (s : Auth R.State) {safe : SafeUser} {sid : String}
        → (login R b cfg d email password meta s).0 ≡ ok (safe, sid)
        → (user : User) × (lookup_user email s ≡ ok (some user))
          × ((assert_not_locked R cfg d.checked_at email s.lockout).0 ≡ ok tt)
          × (password_matches b password user ≡ true)
          × (user.is_active ≡ true)
          × (safe ≡ sanitize_user user)
          × (sid ≡ d.session_id)
    unfolding login Sessions.create clear_failures
    login_needs s h = ground arith

    -- The session that `create_session` makes for a user.
    abbrev made_for : User → Session
    made_for user = record {
      content = record {
        user_id = user.id;
        role = user.role;
        email = user.email;
        ip = meta.ip_address;
        user_agent = first 512 (or_empty meta.user_agent);
      };
      created_at = d.now;
    }

    session_of_login :
        (s : Auth R.State) (user : User)
        → (assert_not_locked R cfg d.checked_at email s.lockout).0 ≡ ok tt
        → lookup_user email s ≡ ok (some user)
        → password_matches b password user ≡ true
        → user.is_active ≡ true
        → (Sessions.get d.session_id (login R b cfg d email password meta s).1.sessions
            ≡ some (made_for user))
          × ((login R b cfg d email password meta s).1.users.users ≡ s.users.users)
    unfolding login Sessions.create clear_failures Sessions.get Users.record_audit
    session_of_login s user unlocked there matching active =
        let stored : Sessions.StoredSession = record {
          session = made_for user;
          ttl = or_default none cfg.session_ttl_seconds;
        } in
        ground (
          arith,
          Dict.lookup-insert d.session_id d.session_id stored s.sessions.sessions,
          get_by_email-state email s.users,
        )

    -- A login that is not locked out, with the right password of an active user who is filed under its own
    -- id, returns that user and a session id; and if the id is not empty, the session resolves to that user
    -- afterwards.
    pub login-resolve_session :
        (s : Auth R.State) (user : User)
        → (assert_not_locked R cfg d.checked_at email s.lockout).0 ≡ ok tt
        → lookup_user email s ≡ ok (some user)
        → Dict.lookup user.id s.users.users ≡ some user
        → password_matches b password user ≡ true
        → user.is_active ≡ true
        → truthy d.session_id ≡ true
        → ((login R b cfg d email password meta s).0 ≡ ok (sanitize_user user, d.session_id))
          × ((resolve_session R b cfg
                (some d.session_id)
                (login R b cfg d email password meta s).1).0
              ≡ ok (some (principal_of user)))
    login-resolve_session s user unlocked there filed matching active named =
        let (made, kept) = session_of_login s user unlocked there matching active in
        (
          login_succeeds s user unlocked there matching active,
          resolve_live d.session_id _ (made_for user) user named made (rw kept filed) active,
        )

    -- A login that raises, for whatever reason, leaves every session and every account as they were.
    pub failed_login_keeps :
        (s : Auth R.State) {e : _}
        → (login R b cfg d email password meta s).0 ≡ raised e
        → ((login R b cfg d email password meta s).1.sessions ≡ s.sessions)
          × ((login R b cfg d email password meta s).1.users.users ≡ s.users.users)
    unfolding login Sessions.create clear_failures Users.record_audit
    failed_login_keeps s h = ground (arith, get_by_email-state email s.users)
