-- ===== src/Services/AuthService/Registration.antt =====
-- `AuthService.register`: a new account can be logged into, and its e-mail address is taken.
use Prim.Native.String.{count}
use enterprise_llm_assistant.Core.Exceptions.{authentication}
use enterprise_llm_assistant.Core.Settings.{Settings}
use enterprise_llm_assistant.Clients.Redis.{Redis}
use enterprise_llm_assistant.Prelude.{◌≤◌, ◌<◌, String, true, false, none, some, ◌≡◌, refl, arith}
use enterprise_llm_assistant.Prelude.{string_eq, ==_refl}
use enterprise_llm_assistant.Prelude.Text.{truthy, truthy_of_ne_empty, truthy_of_count}
use enterprise_llm_assistant.Prelude.Dict
use enterprise_llm_assistant.Prelude.Exec.{ok, raised}
use enterprise_llm_assistant.Security.AuthLimits.{normalize, assert_not_locked}
use enterprise_llm_assistant.Security.Authentication
use enterprise_llm_assistant.Security.Authentication.{Bcrypt, hash_password, verify_password}
use enterprise_llm_assistant.Repositories.Users
use enterprise_llm_assistant.Repositories.Users.{User}
use enterprise_llm_assistant.Services.AuthService.{
  Auth, Draws, ClientMeta, sanitize_user, password_matches, register, login,
}
use enterprise_llm_assistant.Services.AuthService.Login.{lookup_user, login_succeeds}

module _ (R : Redis) (b : Bcrypt) (cfg : Settings) where
  module _ (meta : ClientMeta) where
    register_taken :
        (d : Draws) (email password : String) (t : Auth R.State) {id : String}
        → Dict.lookup (normalize email) t.users.by_email ≡ some id
        → cfg.auth_min_password_length ≤ count password
        → register R b cfg d email password meta t
          ≡ (raised (authentication "Email already registered"), t)
    unfolding register Users.create_user
    register_taken d email password t taken long = ground arith

  module _ (d : Draws) (email password : String) (meta : ClientMeta) (s : Auth R.State) where
    -- The user that a registration makes.
    abbrev pub registered : User
    registered =
        Users.new_user b d.uuid d.salt d.now email (some password) cfg.default_user_role false

    abbrev pub after_register : Auth R.State
    after_register = (register R b cfg d email password meta s).1

    register_result :
        cfg.auth_min_password_length ≤ count password
        → Dict.lookup (normalize email) s.users.by_email ≡ none
        → ((register R b cfg d email password meta s).0 ≡ ok (sanitize_user registered, d.token))
          × (after_register.users.by_email ≡ Dict.insert (normalize email) d.uuid s.users.by_email)
          × (after_register.users.users ≡ Dict.insert d.uuid registered s.users.users)
          × (after_register.lockout ≡ s.lockout)
    unfolding register Users.create_user Users.create_email_verification_token Users.record_audit
    register_result long free = ground arith

    lookup-registered :
        (spelling : String)
        → cfg.auth_min_password_length ≤ count password
        → Dict.lookup (normalize email) s.users.by_email ≡ none
        → truthy d.uuid ≡ true
        → normalize spelling ≡ normalize email
        → lookup_user R b cfg spelling after_register ≡ ok (some registered)
    unfolding Users.get_by_email
    lookup-registered spelling long free named same =
        let (_, by_email, users, _) = register_result long free in
        ground (
          arith,
          by_email,
          users,
          Dict.lookup-insert (normalize spelling) (normalize email) d.uuid s.users.by_email,
          Dict.lookup-insert d.uuid d.uuid registered s.users.users,
        )

    registered_matches :
        Authentication.IsLawful b
        → 0 < count password
        → password_matches b password registered ≡ true
    unfolding password_matches hash_password verify_password Users.hash_if_given
    registered_matches lawful long = ground (
      arith,
      truthy_of_count password,
      truthy_of_ne_empty (b.hashpw password d.salt) (lawful.hashpw-ne_empty password d.salt),
      lawful.checkpw-hashpw password d.salt,
    )

    -- With a bcrypt library that accepts a password against its own hash, a minimum password length above
    -- 0, a password that is long enough, a free e-mail address and an id that is not empty, a registration
    -- returns the new user, and a login with the same password and any spelling of the address succeeds,
    -- unless the account is locked.
    pub register-login :
        (l : Draws) (spelling : String)
        → Authentication.IsLawful b
        → 0 < cfg.auth_min_password_length
        → cfg.auth_min_password_length ≤ count password
        → Dict.lookup (normalize email) s.users.by_email ≡ none
        → truthy d.uuid ≡ true
        → normalize spelling ≡ normalize email
        → (assert_not_locked R cfg l.checked_at spelling s.lockout).0 ≡ ok tt
        → ((register R b cfg d email password meta s).0 ≡ ok (sanitize_user registered, d.token))
          × ((login R b cfg l spelling password meta after_register).0
              ≡ ok (sanitize_user registered, l.session_id))
    register-login l spelling lawful positive long free named same unlocked =
        let (answer, _, _, lockout) = register_result long free in
        (
          answer,
          login_succeeds R b cfg l spelling password meta after_register registered
              (rw lockout unlocked) (lookup-registered spelling long free named same)
              (registered_matches lawful (omega arith)) refl,
        )

    -- After a registration with a free e-mail address and a password that is long enough, a second one with
    -- any spelling of the address and a password that is long enough is refused and changes nothing.
    pub register_twice :
        (again : Draws) (spelling other : String)
        → cfg.auth_min_password_length ≤ count password
        → Dict.lookup (normalize email) s.users.by_email ≡ none
        → normalize spelling ≡ normalize email
        → cfg.auth_min_password_length ≤ count other
        → register R b cfg again spelling other meta after_register
          ≡ (raised (authentication "Email already registered"), after_register)
    register_twice again spelling other long free same enough =
        let (_, by_email, _, _) = register_result long free in
        register_taken meta again spelling other after_register {id = d.uuid}
          (rw (same, by_email, Dict.lookup-insert, ==_refl) refl) enough
