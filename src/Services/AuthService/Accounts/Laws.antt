-- ===== src/Services/AuthService/Accounts/Laws.antt =====
-- What a password reset and an OAuth login leave behind.
use enterprise_llm_assistant.Core.Settings.{Settings}
use enterprise_llm_assistant.Clients.Redis.{Redis}
use enterprise_llm_assistant.Prelude.{
  ◌≤◌, String, true, false, some, ◌≡◌, ◌≢◌, refl, arith, inl, inr,
}
use enterprise_llm_assistant.Prelude.{string_eq, pair_eq, Option-cases, ==_refl}
use enterprise_llm_assistant.Prelude.Text.{truthy, truthy_of_ne_empty}
use enterprise_llm_assistant.Prelude.Dict
use enterprise_llm_assistant.Prelude.Exec.{ok}
use enterprise_llm_assistant.Security.Authentication
use enterprise_llm_assistant.Security.Authentication.{Bcrypt, hash_password, verify_password}
use enterprise_llm_assistant.Security.Sessions
use enterprise_llm_assistant.Security.Sessions.Index.{IsIndexed, belongs_to, revoked_all}
use enterprise_llm_assistant.Repositories.Users
use enterprise_llm_assistant.Repositories.Users.{User, TokenData}
use enterprise_llm_assistant.Services.AuthService.{Auth, Draws, password_matches}
use enterprise_llm_assistant.Services.AuthService.Accounts.{reset_password}

module _ (R : Redis) (b : Bcrypt) (cfg : Settings) where
  module _ (d : Draws) (token new_password : String) (s : Auth R.State) where
    abbrev pub after_reset : Auth R.State
    after_reset = (reset_password R b cfg d token new_password s).1

    -- What a reset that returned has done, part by part.
    reset_parts :
        (reset_password R b cfg d token new_password s).0 ≡ ok tt
        → (entry : TokenData) × (user : User) × (Dict.lookup token s.users.reset_tokens
            ≡ some entry)
          × (entry.used ≡ false)
          × (d.now ≤ entry.expires_at)
          × (truthy entry.user_id ≡ true)
          × (Dict.lookup entry.user_id s.users.users ≡ some user)
          × (after_reset.users.users
              ≡ Dict.insert entry.user_id
                  (record user { password_hash = some (hash_password b d.salt new_password) })
                  s.users.users)
          × (after_reset.users.reset_tokens
              ≡ Dict.insert token (record entry { used = true }) s.users.reset_tokens)
          × (after_reset.sessions ≡ (Sessions.delete_all_for_user entry.user_id s.sessions).1)
    unfolding reset_password Users.consume_password_reset_token Users.set_password
        Sessions.delete_all_for_user Users.record_audit
    reset_parts h = elim (Option-cases (Dict.lookup token s.users.reset_tokens)) [
      | inl e ↦ absurd (ground arith)
      | inr (entry, e) ↦ elim (Option-cases (Dict.lookup entry.user_id s.users.users)) [
        | inl f ↦ absurd (ground arith)
        | inr (user, f) ↦ (
          entry,
          user,
          e,
          ground arith,
          ground arith,
          ground arith,
          f,
          ground arith,
          ground arith,
          ground arith,
        )
      ]
    ]

  matches_new :
      Authentication.IsLawful b
      → (salt password : String) (user : User)
      → password_matches b password
          (record user { password_hash = some (hash_password b salt password) })
        ≡ true
  unfolding password_matches hash_password verify_password
  matches_new lawful salt password user = ground (
    arith,
    truthy_of_ne_empty (b.hashpw password salt) (lawful.hashpw-ne_empty password salt),
    lawful.checkpw-hashpw password salt,
  )

  spent_again :
      (d : Draws) (token password : String) (s : Auth R.State) (entry : TokenData)
      → Dict.lookup token s.users.reset_tokens ≡ some entry
      → entry.used ≡ true
      → (reset_password R b cfg d token password s).0 ≢ ok tt
  spent_again d token password s entry filed used done =
      let (other, _, there, unused, _, _, _, _, _, _) = reset_parts d token password s done in
      ground arith

  -- With a bcrypt library that accepts a password against its own hash and never hashes to the empty text,
  -- and with a session index that covers every session: a reset that returns had a token that is filed,
  -- unused and in time. Afterwards the account accepts the new password, no session of the account can be
  -- read, and the token is good for no further reset.
  pub reset_password-revokes :
      (d : Draws) (token new_password : String) (s : Auth R.State)
      → Authentication.IsLawful b
      → IsIndexed s.sessions
      → (reset_password R b cfg d token new_password s).0 ≡ ok tt
      → (entry : TokenData) × (user : User) × (Dict.lookup token s.users.reset_tokens ≡ some entry)
        × (entry.used ≡ false)
        × (d.now ≤ entry.expires_at)
        × (Dict.lookup entry.user_id (after_reset d token new_password s).users.users ≡ some user)
        × (password_matches b new_password user ≡ true)
        × ((sid : String)
            → belongs_to entry.user_id
                (Sessions.get sid (after_reset d token new_password s).sessions)
              ≡ false)
        × ((again : Draws) (other : String)
            → (reset_password R b cfg again token other (after_reset d token new_password s)).0
              ≢ ok tt)
  reset_password-revokes d token new_password s lawful indexed h =
      let (entry, old, filed, unused, in_time, named, owner, users, tokens, sessions) =
        reset_parts d token new_password s h in
      let new : User = record old { password_hash = some (hash_password b d.salt new_password) } in
      (
        entry,
        new,
        filed,
        unused,
        in_time,
        rw (users, Dict.lookup-insert, ==_refl),
        matches_new lawful d.salt new_password old,
        λ sid. rw sessions (revoked_all entry.user_id sid indexed named),
        λ again other done.
            spent_again again token other (after_reset d token new_password s)
              (record entry { used = true }) (rw (tokens, Dict.lookup-insert, ==_refl) refl) refl
              done,
      )
