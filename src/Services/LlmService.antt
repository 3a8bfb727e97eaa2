-- ===== src/Services/LlmService.antt =====
-- app/services/llm_service.py, `LLMService`, with app/cache/redis_cache.py and app/cache/cache_key.py. The
-- provider, and the cache's server with its serialisation, are parameters. Latencies are left out.
pub mod Caching
use Prim.Native.String.{◌++◌ as ◌<>◌}
use enterprise_llm_assistant.Core.Exceptions.{Exception, llm_provider, text_of}
use enterprise_llm_assistant.Core.Settings.{Settings}
use enterprise_llm_assistant.Prelude.{
  ℕ, ◌+◌, ◌*◌, String, Bool, true, false, Option, none, some, List, [], ◌∷◌, ◌≡◌,
}
use enterprise_llm_assistant.Prelude.{if◌then◌else◌, string_eq, pair_eq}
use enterprise_llm_assistant.Prelude.Text.{truthy}
use enterprise_llm_assistant.Prelude.Dict
use enterprise_llm_assistant.Prelude.Dict.{Dict}
use enterprise_llm_assistant.Prelude.Exec.{
  Result, ok, raised, Exec, pure, raise, asks, modify, ◌>>=◌, ◌>>◌,
}
use enterprise_llm_assistant.Policies.Retry
use enterprise_llm_assistant.Policies.Retry.{RetryPolicy, Waiting, execute_in_time}
use enterprise_llm_assistant.Policies.CircuitBreaker
use enterprise_llm_assistant.Policies.CircuitBreaker.{CircuitBreaker}

-- A cost is a number of units of 0.00000001 dollars.
pub record LlmResult : Type 0 where
  pub content : String
  pub model : String
  pub prompt_tokens : ℕ
  pub completion_tokens : ℕ
  pub total_tokens : ℕ
  pub cost_usd : ℕ
  pub cached : Bool

-- An `LLMProvider`: what a call answers, how long it takes, and what it leaves when it is cancelled.
pub record Provider : Type 1 where
  pub State : Type 0
  pub name : String
  pub generate : String → Exec State LlmResult
  pub took : String → State → ℕ
  pub cancelled : String → State → State
  pub stream : String → State → (List String × Option Exception) × State

-- The Redis server behind `RedisSemanticCache`, with the digest of a payload, and results as JSON. What is read is
-- nothing, also for an empty dict, or an entry as `LLMResult.model_validate` reads it, which raises if it is no result.
pub record Cache : Type 1 where
  pub State : Type 0
  pub digest : String → String → String → String
  pub get : String → Exec State (Option (Result LlmResult))
  pub set : String → LlmResult → ℕ → Exec State Unit

-- A result that was written without an exception is read back, until its time to live has passed.
pub record IsLawful (K : Cache) : Type 0 where
  pub get-set :
      (key : String) (result : LlmResult) (ttl : ℕ) (s t : K.State)
      → K.set key result ttl s ≡ (ok tt, t)
      → (K.get key t).0 ≡ ok (some (ok result))

-- The counters of app/observability/metrics.py; a request is counted by endpoint and status.
pub record Metrics : Type 0 where
  pub request_count : Dict (String × String) ℕ
  pub prompt_tokens : ℕ
  pub completion_tokens : ℕ
  pub request_cost : ℕ
  pub cache_hits : ℕ
  pub cache_misses : ℕ

-- `.inc()`
unfoldable pub count_request : String → String → Metrics → Metrics
count_request endpoint status m = record m {
  request_count =
      Dict.insert (endpoint, status)
        (elim (Dict.lookup (endpoint, status) m.request_count) [ none ↦ 1 | some n ↦ n + 1 ])
        m.request_count;
}

-- `TOKEN_PRICING_PER_1K`, by one token.
abbrev pub token_pricing : Dict String (ℕ × ℕ)
token_pricing =
    ("openai", (15, 60))
    ∷ ("gemini", (10, 40))
    ∷ ("anthropic", (300, 1500))
    ∷ ("ollama", (0, 0))
    ∷ ("azure_openai", (15, 60))
    ∷ []

unfoldable pub calculate_cost : String → ℕ → ℕ → ℕ
calculate_cost provider_name prompt_tokens completion_tokens =
    let (prompt, completion) : ℕ × ℕ = elim (Dict.lookup provider_name token_pricing) [
      | none ↦ (15, 60)
      | some pricing ↦ pricing
    ] in
    prompt_tokens * prompt + completion_tokens * completion

pub record Llm (P : Type 0) (C : Type 0) : Type 0 where
  pub provider : P
  pub cache : Option C
  pub slept : List ℕ
  pub breaker : CircuitBreaker
  pub metrics : Metrics

module _ (P : Provider) (K : Cache) (cfg : Settings) (policy : RetryPolicy)
    (timeout : Option ℕ) where
  abbrev pub M : Type 0 → Type 0
  M A = Exec (Llm P.State K.State) A

  unfoldable pub build_llm_key : String → String
  build_llm_key prompt = "llm:" <> K.digest P.name cfg.model_name prompt

  -- `cache_key`, if the cache is enabled and there.
  unfoldable pub cache_key : String → Option K.State → Option String
  unfolding build_llm_key
  cache_key prompt none = none
  cache_key prompt (some _) = if cfg.cache_enabled then some (build_llm_key prompt) else none

  abbrev pub unless_raised : Result (Option (Result LlmResult)) → Option (Result LlmResult)
  unless_raised (ok found) = found
  unless_raised (raised _) = none

  -- `try: cached = await self._cache.get(cache_key) except Exception: cached = None`
  unfoldable pub read_cache : String → M (Option (Result LlmResult))
  read_cache key s = elim s.cache [
    | none ↦ (ok none, s)
    | some c ↦ let (r, c') = K.get key c in (ok (unless_raised r), record s { cache = some c' })
  ]

  -- `try: await self._cache.set(…) except Exception: …`
  unfoldable pub write_cache : Option String → LlmResult → M Unit
  write_cache none result s = (ok tt, s)
  write_cache (some key) result s = elim s.cache [
    | none ↦ (ok tt, s)
    | some c ↦
        if truthy key
        then (ok tt, record s { cache = some (K.set key result cfg.cache_ttl_seconds c).1 })
        else (ok tt, s)
  ]

  -- The breaker around the retries around the timeout around the provider.
  unfoldable pub call_provider : ℕ → ℕ → String → M LlmResult
  call_provider now failed_at prompt s =
      let operation : Exec (Waiting P.State) LlmResult =
        Retry.execute policy
          (execute_in_time cfg timeout (P.took prompt) (P.cancelled prompt) (P.generate prompt)) in
      let (r, g) =
        CircuitBreaker.execute now failed_at operation (record {
          breaker = s.breaker;
          state = record { state = s.provider; slept = s.slept };
        }) in
      (r, record s { provider = g.state.state; slept = g.state.slept; breaker = g.breaker })

  abbrev count_in : (Metrics → Metrics) → M Unit
  count_in f = modify (λ s. record s { metrics = f s.metrics })

  abbrev pub priced : LlmResult → LlmResult
  priced result = record result {
    cost_usd = calculate_cost P.name result.prompt_tokens result.completion_tokens;
  }

  spent : LlmResult → Metrics → Metrics
  unfolding count_request
  spent result m = count_request "generate" "success" (record m {
    prompt_tokens = m.prompt_tokens + result.prompt_tokens;
    completion_tokens = m.completion_tokens + result.completion_tokens;
    request_cost = m.request_cost + result.cost_usd;
  })

  -- What follows the call of the provider.
  finish : Option String → Result LlmResult → M LlmResult
  unfolding spent write_cache count_request
  finish key (raised e) = do
    count_in (count_request "generate" "error")
    raise (llm_provider (text_of e))
  finish key (ok result) = do
    count_in (spent (priced result))
    write_cache key (priced result)
    pure (priced result)

  generate_anew : ℕ → ℕ → String → Option String → M LlmResult
  unfolding finish call_provider
  generate_anew now failed_at prompt key s =
      let (r, s') = call_provider now failed_at prompt s in finish key r s'

  answer_cached : ℕ → ℕ → String → String → Option (Result LlmResult) → M LlmResult
  unfolding generate_anew
  answer_cached now failed_at prompt key (some entry) = do
    count_in (λ m. record m { cache_hits = m.cache_hits + 1 })
    result ← asks (λ s. entry)
    pure (record result { cached = true; cost_usd = 0 })
  answer_cached now failed_at prompt key none = do
    count_in (λ m. record m { cache_misses = m.cache_misses + 1 })
    generate_anew now failed_at prompt (some key)

  -- `generate`, with the breaker's two readings of the clock.
  unfoldable pub generate : ℕ → ℕ → String → M LlmResult
  unfolding answer_cached read_cache cache_key
  generate now failed_at prompt s = elim (cache_key prompt s.cache) [
    | none ↦ generate_anew now failed_at prompt none s
    | some key ↦ (do cached ← read_cache key; answer_cached now failed_at prompt key cached) s
  ]

  -- `stream`, to its end: the chunks, and the exception if there was one. The clause `finally` counts a success
  -- either way.
  unfoldable pub stream :
      String → Llm P.State K.State → (List String × Option Exception) × Llm P.State K.State
  unfolding count_request
  stream prompt s =
      let ((chunks, failed), p) = P.stream prompt s.provider in
      let m : Metrics = elim failed [
        | none ↦ s.metrics
        | some _ ↦ count_request "stream" "error" s.metrics
      ] in
      (
        (chunks, elim failed [ none ↦ none | some e ↦ some (llm_provider (text_of e)) ]),
        record s { provider = p; metrics = count_request "stream" "success" m },
      )
