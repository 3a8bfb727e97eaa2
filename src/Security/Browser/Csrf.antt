-- ===== src/Security/Browser/Csrf.antt =====
-- app/security/csrf.py: the requests that are refused.
use enterprise_llm_assistant.Core.Exceptions.{Exception, http, type_error}
use enterprise_llm_assistant.Core.Settings.{Settings}
use enterprise_llm_assistant.Prelude.{
  String, true, false, ◌&&◌, Option, none, some, ◌⊎◌, inl, inr, ◌≡◌, ◌≢◌, refl, sym, ap, arith,
}
use enterprise_llm_assistant.Prelude.{string_eq}
use enterprise_llm_assistant.Prelude.Equality.{==_cases, Bool-cases}
use enterprise_llm_assistant.Prelude.Text.{truthy, or_empty}
use enterprise_llm_assistant.Prelude.Dict
use enterprise_llm_assistant.Prelude.Exec.{raised}
use enterprise_llm_assistant.Security.Browser.{Request, validate_csrf, is_ascii, compare_digest}

-- The errors of a refusal: a 403, but for tokens that `hmac.compare_digest` does not take.
abbrev pub IsRefusal : String → String → Exception → Type 0
IsRefusal cookie_token header_token e =
    (e ≡ http 403 "CSRF validation failed")
    ⊎ ((e ≡ type_error "comparing strings with non-ASCII characters is not supported")
        × (is_ascii cookie_token && is_ascii header_token ≡ false))

-- Two tokens that are equal and not empty are the same value, twice.
brought :
    (c h : Option String)
    → truthy (or_empty c) && truthy (or_empty h) ≡ true
    → or_empty c ≡ or_empty h
    → (token : String) × (truthy token ≡ true) × (c ≡ some token) × (h ≡ some token)
unfolding or_empty truthy
brought (some c) (some h) full same = (c, ground arith, refl, ap some (sym same))
brought none h full same = absurd (ground arith)
brought (some c) none full same = absurd (ground arith)

module _ (cfg : Settings) (request : Request) where
  abbrev pub cookie_token : String
  cookie_token = or_empty (Dict.lookup cfg.csrf_cookie_name request.cookies)

  abbrev pub header_token : String
  header_token = or_empty (request.header cfg.csrf_header_name)

  pub validate_csrf-refuses :
      {S : Type 0} (s : S)
      → ((token : String)
          → truthy token ≡ true
          → Dict.lookup cfg.csrf_cookie_name request.cookies ≡ some token
          → request.header cfg.csrf_header_name ≢ some token)
      → (e : Exception) × (validate_csrf cfg request s ≡ (raised e, s))
        × IsRefusal cookie_token header_token e
  unfolding validate_csrf compare_digest
  validate_csrf-refuses s unmatched =
      elim (Bool-cases (truthy cookie_token && truthy header_token)) [
        | inr lacking ↦ (http 403 "CSRF validation failed", rw lacking refl, inl refl)
        | inl full ↦ elim (Bool-cases (is_ascii cookie_token && is_ascii header_token)) [
          | inr foreign ↦ (
            type_error "comparing strings with non-ASCII characters is not supported",
            rw (full, foreign) refl,
            inr (refl, foreign),
          )
          | inl plain ↦ elim (==_cases cookie_token header_token) [
            | inr (differ, _) ↦
                (http 403 "CSRF validation failed", rw (full, plain, differ) refl, inl refl)
            | inl (_, same) ↦
                let (token, given, in_cookie, in_header) =
                  brought (Dict.lookup cfg.csrf_cookie_name request.cookies)
                    (request.header cfg.csrf_header_name) full same in
                absurd (unmatched token given in_cookie in_header)
          ]
        ]
      ]
