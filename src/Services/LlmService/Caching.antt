-- ===== src/Services/LlmService/Caching.antt =====
-- `LLMService.generate`: what it raises, and how its cache is used.
use text.Mathlib.TextLemmas.{length-append}
use enterprise_llm_assistant.Core.Exceptions.{Exception, llm_provider, text_of}
use enterprise_llm_assistant.Core.Settings.{Settings}
use enterprise_llm_assistant.Policies.Retry.{RetryPolicy}
use enterprise_llm_assistant.Prelude.{
  ℕ, ◌+◌, String, Bool, true, false, Option, none, some, List, ◌≡◌, refl, arith, inl, inr, ◌⊎◌,
}
use enterprise_llm_assistant.Prelude.{
  Option-cases, ==_refl, pair_eq, string_eq, ◌==◌, if◌then◌else◌,
}
use enterprise_llm_assistant.Prelude.Dict
use enterprise_llm_assistant.Prelude.Text.{truthy, truthy_of_count}
use enterprise_llm_assistant.Prelude.Exec.{Result, ok, raised}
use enterprise_llm_assistant.Services.LlmService.{
  LlmResult, Provider, Cache, IsLawful, Llm, generate, finish, generate_anew, answer_cached,
  unless_raised, call_provider, cache_key, build_llm_key, read_cache, write_cache, priced, stream,
  Metrics, count_request,
}

-- How many requests were counted.
abbrev pub requests : String → String → Metrics → ℕ
requests endpoint status m = elim (Dict.lookup (endpoint, status) m.request_count) [
  | none ↦ 0
  | some n ↦ n
]

-- Whether two labels of a counter are the same.
abbrev same_label : String × String → String × String → Bool
same_label one other = one == other

requests-count_request :
    (endpoint status of_endpoint of_status : String) (m : Metrics)
    → requests endpoint status (count_request of_endpoint of_status m) ≡ (
        if same_label (endpoint, status) (of_endpoint, of_status)
        then requests endpoint status m + 1
        else requests endpoint status m)
unfolding count_request
requests-count_request endpoint status of_endpoint of_status m = grind (arith, Dict.lookup-insert)

errors_apart : same_label ("stream", "error") ("stream", "success") ≡ false
unfolding pair_eq string_eq
errors_apart = refl

successes_apart : same_label ("stream", "success") ("stream", "error") ≡ false
unfolding pair_eq string_eq
successes_apart = refl

label_same : (label : String × String) → same_label label label ≡ true
label_same label = ==_refl label

module _ (P : Provider) (K : Cache) (cfg : Settings) (policy : RetryPolicy)
    (timeout : Option ℕ) where
  finish-raises :
      (key : Option String) (r : Result LlmResult) (s : Llm P.State K.State) {e : Exception}
      → (finish P K cfg policy timeout key r s).0 ≡ raised e
      → (message : String) × (e ≡ llm_provider message)
  unfolding finish write_cache
  finish-raises key (raised cause) s h = (text_of cause, ground arith)
  finish-raises key (ok result) s h = absurd (ground arith)

  anew-raises :
      (now failed_at : ℕ) (prompt : String) (key : Option String) (s : Llm P.State K.State)
      {e : Exception}
      → (generate_anew P K cfg policy timeout now failed_at prompt key s).0 ≡ raised e
      → (message : String) × (e ≡ llm_provider message)
  unfolding generate_anew
  anew-raises now failed_at prompt key s h =
      let (r, s') = call_provider P K cfg policy timeout now failed_at prompt s in
      finish-raises key r s' h

  answer-raises :
      (now failed_at : ℕ) (prompt key : String) (found : Option (Result LlmResult))
      (s : Llm P.State K.State) {e : Exception}
      → (answer_cached P K cfg policy timeout now failed_at prompt key found s).0 ≡ raised e
      → (found ≡ some (raised e)) ⊎ ((message : String) × (e ≡ llm_provider message))
  unfolding answer_cached
  answer-raises now failed_at prompt key (some (ok result)) s h = absurd (ground arith)
  answer-raises now failed_at prompt key (some (raised e)) s h = inl (ground arith)
  answer-raises now failed_at prompt key none s h =
      inr (anew-raises now failed_at prompt (some key) _ h)

  -- The result of a cache's read: an exception is a miss.
  abbrev pub read_of : String → Llm P.State K.State → Option (Result LlmResult)
  read_of key s = elim s.cache [
    | none ↦ none
    | some c ↦ unless_raised P K cfg policy timeout (K.get key c).0
  ]

  -- Whatever the provider, the cache and the policies do, an exception that `generate` raises is an
  -- `LLMProviderException`, or the one of a cache's entry that is no result.
  pub generate-raises :
      (now failed_at : ℕ) (prompt : String) (s : Llm P.State K.State) {e : Exception}
      → (generate P K cfg policy timeout now failed_at prompt s).0 ≡ raised e
      → ((key : String) × (read_of key s ≡ some (raised e)))
        ⊎ ((message : String) × (e ≡ llm_provider message))
  unfolding generate generate_anew answer_cached read_cache
  generate-raises now failed_at prompt s {e} h =
      elim (Option-cases (cache_key P K cfg policy timeout prompt s.cache)) [
        | inl none_key ↦ inr (anew-raises now failed_at prompt none s (ground arith))
        | inr (key, is_key) ↦
            elim (answer-raises now failed_at prompt key (read_of key s)
              (read_cache P K cfg policy timeout key s).1 (ground arith)) [
                | inl entry ↦ inl (key, entry)
                | inr answered ↦ inr answered
              ]
      ]

  -- A result in the cache is returned without a call of the provider, marked as cached and at no cost.
  pub generate-hit :
      (now failed_at : ℕ) (prompt : String) (s : Llm P.State K.State) (c : K.State)
      (result : LlmResult)
      → cfg.cache_enabled ≡ true
      → s.cache ≡ some c
      → (K.get (build_llm_key P K cfg policy timeout prompt) c).0 ≡ ok (some (ok result))
      → ((generate P K cfg policy timeout now failed_at prompt s).0
          ≡ ok (record result { cached = true; cost_usd = 0 }))
        × ((generate P K cfg policy timeout now failed_at prompt s).1.provider ≡ s.provider)
        × ((generate P K cfg policy timeout now failed_at prompt s).1.breaker ≡ s.breaker)
  unfolding generate
  generate-hit now failed_at prompt s c result enabled there hit =
      (ground arith, ground arith, ground arith)

  key_named : (prompt : String) → truthy (build_llm_key P K cfg policy timeout prompt) ≡ true
  unfolding build_llm_key
  key_named prompt =
      truthy_of_count _
        (omega (arith, length-append "llm:" (K.digest P.name cfg.model_name prompt)))

  -- The provider's answer does not depend on the cache or the metrics.
  -- If reading the cache gives nothing for the prompt, because it is disabled, missing, raises or has no
  -- entry, and the policies around the provider return a result, then `generate` returns that result with
  -- its cost, also when writing the cache raises.
  pub generate-miss :
      (now failed_at : ℕ) (prompt : String) (s : Llm P.State K.State) (result : LlmResult)
      → read_of (build_llm_key P K cfg policy timeout prompt) s ≡ none
      → (call_provider P K cfg policy timeout now failed_at prompt s).0 ≡ ok result
      → (generate P K cfg policy timeout now failed_at prompt s).0
        ≡ ok (priced P K cfg policy timeout result)
  unfolding generate generate_anew answer_cached read_cache finish write_cache call_provider
      cache_key
  generate-miss now failed_at prompt s result miss answered = ground arith

  -- With the cache enabled, and a cache that reads back what was written: when a call of `generate` finds
  -- no entry, gets a result from the policies around the provider and writes it without an exception, it
  -- returns the result with its cost, and the next call with the same prompt returns it from the cache,
  -- marked as cached and at no cost, leaving the provider and the breaker as they were.
  pub generate-twice :
      (now failed_at later later_failed : ℕ) (prompt : String) (s : Llm P.State K.State)
      (c c1 c2 : K.State) (result : LlmResult)
      → IsLawful K
      → cfg.cache_enabled ≡ true
      → s.cache ≡ some c
      → K.get (build_llm_key P K cfg policy timeout prompt) c ≡ (ok none, c1)
      → (call_provider P K cfg policy timeout now failed_at prompt s).0 ≡ ok result
      → K.set
          (build_llm_key P K cfg policy timeout prompt)
          (priced P K cfg policy timeout result)
          cfg.cache_ttl_seconds
          c1
        ≡ (ok tt, c2)
      → let first = generate P K cfg policy timeout now failed_at prompt s in
        let second = generate P K cfg policy timeout later later_failed prompt first.1 in
        (first.0 ≡ ok (priced P K cfg policy timeout result))
        × (second.0 ≡ ok (record result { cached = true; cost_usd = 0 }))
        × (second.1.provider ≡ first.1.provider)
        × (second.1.breaker ≡ first.1.breaker)
  unfolding generate generate_anew answer_cached read_cache finish write_cache call_provider
      cache_key
  generate-twice now failed_at later later_failed prompt s c c1 c2 result lawful enabled there miss
        answered written =
      let key = build_llm_key P K cfg policy timeout prompt in
      let read =
        lawful.get-set key (priced P K cfg policy timeout result) cfg.cache_ttl_seconds c1 c2
          written in
      let first : (generate P K cfg policy timeout now failed_at prompt s).0
          ≡ ok (priced P K cfg policy timeout result) =
        ground arith in
      let kept : (generate P K cfg policy timeout now failed_at prompt s).1.cache ≡ some c2 =
        ground (arith, key_named prompt) in
      let hit =
        generate-hit later later_failed prompt
          (generate P K cfg policy timeout now failed_at prompt s).1 c2
          (priced P K cfg policy timeout result) enabled kept read in
      (first, hit.0, hit.1, hit.2)

  -- A stream that ends with an exception raises `LLMProviderException` with its text after the same chunks, and is counted both as an error and as a success.
  pub stream-failed :
      (prompt : String) (s : Llm P.State K.State) (chunks : List String) (e : Exception)
      (p : P.State)
      → P.stream prompt s.provider ≡ ((chunks, some e), p)
      → let (answer, t) = stream P K cfg policy timeout prompt s in
        (answer ≡ (chunks, some (llm_provider (text_of e))))
        × (requests "stream" "error" t.metrics ≡ requests "stream" "error" s.metrics + 1)
        × (requests "stream" "success" t.metrics ≡ requests "stream" "success" s.metrics + 1)
  unfolding stream
  stream-failed prompt s chunks e p h = (
    ground arith,
    ground (
      arith,
      requests-count_request "stream" "error" "stream" "success"
          (count_request "stream" "error" s.metrics),
      requests-count_request "stream" "error" "stream" "error" s.metrics,
      errors_apart,
      label_same ("stream", "error"),
    ),
    ground (
      arith,
      requests-count_request "stream" "success" "stream" "success"
          (count_request "stream" "error" s.metrics),
      requests-count_request "stream" "success" "stream" "error" s.metrics,
      successes_apart,
      label_same ("stream", "success"),
    ),
  )
