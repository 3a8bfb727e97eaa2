-- ===== src/Repositories/Users/Runs.antt =====
-- `InMemoryUserRepository` under any sequence of its operations.
use enterprise_llm_assistant.Prelude.{
  ℕ, String, Bool, true, Option, none, some, ◌≡◌, refl, sym, ◌↔◌,
}
use enterprise_llm_assistant.Prelude.{string_eq}
use enterprise_llm_assistant.Prelude.Text.{truthy}
use enterprise_llm_assistant.Prelude.Dict
use enterprise_llm_assistant.Prelude.Exec.{ok}
use enterprise_llm_assistant.Security.AuthLimits.{normalize}
use enterprise_llm_assistant.Security.Authentication.{Bcrypt}
use enterprise_llm_assistant.Repositories.Users.{
  Users, User, AuditEvent, no_users, create_user, set_password, set_email_verified, get_by_email,
  link_oauth_account, create_email_verification_token, consume_email_verification_token,
  create_password_reset_token, consume_password_reset_token, record_audit,
}
use enterprise_llm_assistant.Repositories.Users.Directory.{
  IsConsistent, IsConsistent-no_users, create_user-IsConsistent, set_password-IsConsistent,
  set_email_verified-IsConsistent, get_by_email-filed,
}

-- One operation. `uuid4` draws an id that is not in use, and is not the empty string.
pub data Step (b : Bcrypt) : Users → Users → Type 0 where
  created :
      (id salt : String) (now : ℕ) (email : String) (password : Option String) (role : String)
      (verified : Bool) (u : Users)
      → Dict.lookup id u.users ≡ none
      → truthy id ≡ true
      → Step b u (create_user b id salt now email password role verified u).1
  password_set :
      (salt id password : String) (u : Users) → Step b u (set_password b salt id password u).1
  confirmed : (id : String) (u : Users) → Step b u (set_email_verified id u).1
  linked :
      (id provider provider_user_id : String) (email : Option String) (u : Users)
      → Step b u (link_oauth_account id provider provider_user_id email u)
  verification_issued :
      (token : String) (now : ℕ) (id : String) (ttl_hours : ℕ) (u : Users)
      → Step b u (create_email_verification_token token now id ttl_hours u).1
  verification_consumed :
      (now : ℕ) (token : String) (u : Users)
      → Step b u (consume_email_verification_token now token u).1
  reset_issued :
      (token : String) (now : ℕ) (id : String) (ttl_hours : ℕ) (u : Users)
      → Step b u (create_password_reset_token token now id ttl_hours u).1
  reset_consumed :
      (now : ℕ) (token : String) (u : Users) → Step b u (consume_password_reset_token now token u).1
  audited : (event : AuditEvent) (u : Users) → Step b u (record_audit event u)

-- The repositories that a process can have.
pub data Reached (b : Bcrypt) : Users → Type 0 where
  started : Reached b no_users
  next : {u v : Users} → Reached b u → Step b u v → Reached b v

-- The invariant is about the two dicts alone.
pub same-IsConsistent :
    {u v : Users} → u.users ≡ v.users → u.by_email ≡ v.by_email → IsConsistent u → IsConsistent v
same-IsConsistent {u} {v} e f h = record {
  found = λ email id p. rw (sym e) (h.found email id (rw f p));
  filed = λ id user p. rw (sym f) (h.filed id user (rw e p));
}

Step-IsConsistent : {b : Bcrypt} {u v : Users} → Step b u v → IsConsistent u → IsConsistent v
unfolding link_oauth_account create_email_verification_token consume_email_verification_token
    create_password_reset_token consume_password_reset_token record_audit
Step-IsConsistent {b} (created id salt now email password role verified u unused named) h =
    create_user-IsConsistent b id salt now email password role verified unused named h
Step-IsConsistent {b} (password_set salt id password u) h =
    set_password-IsConsistent b salt id password h
Step-IsConsistent (confirmed id u) h = set_email_verified-IsConsistent id h
Step-IsConsistent (linked id provider provider_user_id email u) h = same-IsConsistent refl refl h
Step-IsConsistent (verification_issued token now id ttl_hours u) h = same-IsConsistent refl refl h
Step-IsConsistent (verification_consumed now token u) h = same-IsConsistent refl refl h
Step-IsConsistent (reset_issued token now id ttl_hours u) h = same-IsConsistent refl refl h
Step-IsConsistent (reset_consumed now token u) h = same-IsConsistent refl refl h
Step-IsConsistent (audited event u) h = same-IsConsistent refl refl h

-- In every repository that is reached from the empty one by its operations, the dict by e-mail leads to users with that e-mail, and every user is filed under its own id and its normalised e-mail.
pub Reached-IsConsistent : {b : Bcrypt} {u : Users} → Reached b u → IsConsistent u
Reached-IsConsistent started = IsConsistent-no_users
Reached-IsConsistent (next r st) = Step-IsConsistent st (Reached-IsConsistent r)

-- In every repository that is reached from the empty one by its operations, `get_by_email` raises nothing and changes nothing, and what it gives is the user that is filed with the normalised e-mail, if there is one.
pub get_by_email-reached :
    (b : Bcrypt) (email : String) {u : Users}
    → Reached b u
    → (found : Option User) × (get_by_email email u ≡ (ok found, u))
      × ((user : User)
          → (found ≡ some user)
            ↔ ((user.email ≡ normalize email) × (Dict.lookup user.id u.users ≡ some user)))
get_by_email-reached b email r = get_by_email-filed email (Reached-IsConsistent r)
