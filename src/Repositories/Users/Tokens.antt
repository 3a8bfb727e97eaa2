-- ===== src/Repositories/Users/Tokens.antt =====
-- Tokens of the user repository: from their issue to their one use.
use enterprise_llm_assistant.Prelude.{
  ℕ, ◌+◌, ◌≤◌, String, true, none, some, List, [], ◌∷◌, ◌≡◌, refl, arith, suc, ◌⊎◌, inl, inr, ◌||◌,
}
use enterprise_llm_assistant.Prelude.{string_eq, if◌then◌else◌, ltb, leb, Bool-cases, Option-cases}
use enterprise_llm_assistant.Prelude.Dict
use enterprise_llm_assistant.Prelude.Dict.{Dict}
use enterprise_llm_assistant.Prelude.Exec.{ok}
use enterprise_llm_assistant.Repositories.Users.{
  Users, TokenData, hours, issued, create_password_reset_token, consume_password_reset_token,
}

-- How many of the attempts at the given times are answered with a user.
unfoldable pub successes : String → List ℕ → Users → ℕ
successes token [] u = 0
successes token (now ∷ times) u =
    let (r, u') = consume_password_reset_token now token u in
    let rest = successes token times u' in elim r [ ok (some _) ↦ suc rest | _ ↦ rest ]

-- The token was used before.
abbrev IsSpent : String → Users → Type 0
IsSpent token u =
    (entry : TokenData) × (Dict.lookup token u.reset_tokens ≡ some entry) × (entry.used ≡ true)

consume-spent :
    (now : ℕ) (token : String) (u : Users)
    → IsSpent token u
    → consume_password_reset_token now token u ≡ (ok none, u)
unfolding consume_password_reset_token
consume-spent now token u (entry, e, used) = ground arith

successes-spent :
    (token : String) (times : List ℕ) (u : Users) → IsSpent token u → successes token times u ≡ 0
unfolding successes
successes-spent token [] u h = refl
successes-spent token (now ∷ times) u h =
    let e = consume-spent now token u h in
    rw (e, successes) (rw e (successes-spent token times u h))

-- One attempt: refused with the store as it was, or answered and the token spent.
consume_cases :
    (now : ℕ) (token : String) (u : Users)
    → (consume_password_reset_token now token u ≡ (ok none, u))
      ⊎ ((user_id : String) × ((consume_password_reset_token now token u).0 ≡ ok (some user_id))
          × IsSpent token (consume_password_reset_token now token u).1)
unfolding consume_password_reset_token
consume_cases now token u = elim (Option-cases (Dict.lookup token u.reset_tokens)) [
  | inl e ↦ inl (ground arith)
  | inr (entry, e) ↦ elim (Bool-cases (entry.used || ltb entry.expires_at now)) [
    | inl refused ↦ inl (ground arith)
    | inr good ↦
        let spent : TokenData = record entry { used = true } in
        inr (
          entry.user_id,
          ground arith,
          (spent, ground (arith, Dict.lookup-insert token token spent u.reset_tokens), refl),
        )
  ]
]

-- Whatever the repository and the times of the attempts, a password reset token is answered with a user at
-- most once.
pub consumed_at_most_once :
    (token : String) (times : List ℕ) (u : Users) → successes token times u ≤ 1
unfolding successes
consumed_at_most_once token [] u = omega arith
consumed_at_most_once token (now ∷ times) u = elim (consume_cases now token u) [
  | inl e ↦ rw (e, successes) (rw e (consumed_at_most_once token times u))
  | inr (user_id, e, spent) ↦
      rw (e, successes)
        (omega
          (arith, successes-spent token times (consume_password_reset_token now token u).1 spent))
]

-- A password reset token that was issued for a user is answered with that user exactly until its time to
-- live has passed, and a later attempt after that one is refused.
pub consume-issued :
    (token user_id : String) (issued_at ttl_hours now later : ℕ) (u : Users)
    → now ≤ later
    → let issue = create_password_reset_token token issued_at user_id ttl_hours u in
      let first = consume_password_reset_token now token issue.1 in
      (issue.0 ≡ ok token)
      × (first.0 ≡ ok (if leb now (issued_at + hours ttl_hours) then some user_id else none))
      × ((consume_password_reset_token later token first.1).0 ≡ ok none)
unfolding create_password_reset_token consume_password_reset_token
consume-issued token user_id issued_at ttl_hours now later u h =
    let issue : TokenData = issued issued_at user_id ttl_hours in
    let issue_law = Dict.lookup-insert token token issue u.reset_tokens in
    let spent : TokenData = record issue { used = true } in
    let spent_law = Dict.lookup-insert token token spent (Dict.insert token issue u.reset_tokens) in
    (refl, ground (arith, issue_law), ground (arith, issue_law, spent_law))
