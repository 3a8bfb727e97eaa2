-- ===== src/Repositories/Users/Directory.antt =====
-- The two dicts of `InMemoryUserRepository`, by id and by e-mail, say the same.
use enterprise_llm_assistant.Prelude.{
  ℕ, String, Bool, true, Option, none, some, ◌≡◌, refl, sym, arith, ◌↔◌, inl, inr,
}
use enterprise_llm_assistant.Prelude.{string_eq, Option-cases, ==_cases}
use enterprise_llm_assistant.Prelude.Text.{truthy}
use enterprise_llm_assistant.Prelude.Text.Laws.{lower-strip_idem}
use enterprise_llm_assistant.Prelude.Dict
use enterprise_llm_assistant.Prelude.Exec.{ok}
use enterprise_llm_assistant.Security.AuthLimits.{normalize}
use enterprise_llm_assistant.Security.Authentication.{Bcrypt}
use enterprise_llm_assistant.Repositories.Users.{
  Users, User, no_users, create_user, new_user, set_password, set_email_verified, get_by_email,
  user_at,
}

pub normalize_idem : (email : String) → normalize (normalize email) ≡ normalize email
unfolding normalize
normalize_idem email = lower-strip_idem email

pub record IsConsistent (u : Users) : Type 0 where
  -- An entry of the e-mail dict leads to a user with that e-mail.
  pub found :
      (email id : String)
      → Dict.lookup email u.by_email ≡ some id
      → (user : User) × (Dict.lookup id u.users ≡ some user) × (user.email ≡ email)
  -- A user is filed under its id and under its normalised e-mail.
  pub filed :
      (id : String) (user : User)
      → Dict.lookup id u.users ≡ some user
      → (user.id ≡ id)
        × (Dict.lookup user.email u.by_email ≡ some id)
        × (normalize user.email ≡ user.email)
        × (truthy id ≡ true)

pub IsConsistent-no_users : IsConsistent no_users
IsConsistent-no_users = record {
  found = λ email id p. cc (Dict.lookup-empty {V = String} email);
  filed = λ id user p. cc (Dict.lookup-empty {V = User} id);
}

module _ (b : Bcrypt) where
  pub create_user-IsConsistent :
      (id salt : String) (now : ℕ) (email : String) (password : Option String) (role : String)
      (verified : Bool) {u : Users}
      → Dict.lookup id u.users ≡ none
      → truthy id ≡ true
      → IsConsistent u
      → IsConsistent (create_user b id salt now email password role verified u).1
  unfolding create_user
  create_user-IsConsistent id salt now email password role verified {u} unused named h = record {
    found = λ e i p. elim (Option-cases (Dict.lookup (normalize email) u.by_email)) [
      | inr (old, taken) ↦
          let q : Dict.lookup e u.by_email ≡ some i = ground arith in
          rw (taken, create_user) (h.found e i q)
      | inl new ↦
          rw (new, create_user)
            (elim (==_cases e (normalize email)) [
              | inl (_, same) ↦ (
                new_user b id salt now email password role verified,
                ground (
                  arith,
                  Dict.lookup-insert e (normalize email) id u.by_email,
                  Dict.lookup-insert i id (new_user b id salt now email password role verified)
                      u.users,
                ),
                sym same,
              )
              | inr (_, differ) ↦
                  let q : Dict.lookup e u.by_email ≡ some i =
                    ground (arith, Dict.lookup-insert e (normalize email) id u.by_email) in
                  let (user, there, mine) = h.found e i q in
                  (
                    user,
                    ground (
                      arith,
                      Dict.lookup-insert i id (new_user b id salt now email password role verified)
                          u.users,
                    ),
                    mine,
                  )
            ])
    ];
    filed = λ i user p. grind (arith, Dict.lookup-insert, h.filed i user, normalize_idem email);
  }

-- A user may be written anew under the same id and e-mail.
replaced-IsConsistent :
    (id : String) (user new : User) {u : Users}
    → Dict.lookup id u.users ≡ some user
    → new.id ≡ user.id
    → new.email ≡ user.email
    → IsConsistent u
    → IsConsistent (record u { users = Dict.insert id new u.users })
replaced-IsConsistent id user new {u} there same_id same_email h = record {
  found = λ e i p.
      let (owner, here, mine) = h.found e i p in
      elim (==_cases i id) [
        | inl (t, same) ↦ (new, rw Dict.lookup-insert (rw t refl), ground arith)
        | inr (t, differ) ↦ (owner, rw Dict.lookup-insert (rw t here), mine)
      ];
  filed = λ i other p. elim (==_cases i id) [
    | inl (t, same) ↦ ground (arith, Dict.lookup-insert i id new u.users, h.filed id user)
    | inr (t, differ) ↦ ground (arith, Dict.lookup-insert i id new u.users, h.filed i other)
  ];
}

pub set_password-IsConsistent :
    (b : Bcrypt) (salt id password : String) {u : Users}
    → IsConsistent u
    → IsConsistent (set_password b salt id password u).1
unfolding set_password
set_password-IsConsistent b salt id password {u} h = elim (Option-cases (Dict.lookup id u.users)) [
  | inl e ↦ rw (e, set_password) h
  | inr (user, e) ↦ rw (e, set_password) (replaced-IsConsistent id user _ e refl refl h)
]

pub set_email_verified-IsConsistent :
    (id : String) {u : Users} → IsConsistent u → IsConsistent (set_email_verified id u).1
unfolding set_email_verified
set_email_verified-IsConsistent id {u} h = elim (Option-cases (Dict.lookup id u.users)) [
  | inl e ↦ rw (e, set_email_verified) h
  | inr (user, e) ↦ rw (e, set_email_verified) (replaced-IsConsistent id user _ e refl refl h)
]

-- With consistent dicts, the lookup by e-mail never fails, and what it gives is the user that is filed
-- under the normalised e-mail, if there is one.
pub get_by_email-filed :
    (email : String) {u : Users}
    → IsConsistent u
    → (found : Option User) × (get_by_email email u ≡ (ok found, u))
      × ((user : User)
          → (found ≡ some user)
            ↔ ((user.email ≡ normalize email) × (Dict.lookup user.id u.users ≡ some user)))
unfolding get_by_email
get_by_email-filed email {u} h = elim (Option-cases (Dict.lookup (normalize email) u.by_email)) [
  | inl e ↦
      (none, rw (e, get_by_email), λ user. (λ p. cc, λ p. ground (arith, h.filed user.id user p.1)))
  | inr (id, e) ↦
      let (owner, there, mine) = h.found (normalize email) id e in
      let (id_is, _, _, named) = h.filed id owner there in
      (
        some owner,
        rw (e, get_by_email) (rw (named, there, user_at)),
        λ user. (λ p. ground arith, λ p. ground (arith, h.filed user.id user p.1)),
      )
]
