-- ===== src/Examples/Llm.antt =====
-- A provider that counts its calls, and a cache that is a dict.
use Prim.Native.String.{◌++◌ as ◌<>◌}
use enterprise_llm_assistant.Core.Exceptions.{llm_provider, runtime_error, text_of}
use enterprise_llm_assistant.Core.Settings.{defaults}
use enterprise_llm_assistant.Policies.Retry
use enterprise_llm_assistant.Policies.Retry.{RetryPolicy, execute_in_time, wait_for}
use enterprise_llm_assistant.Policies.CircuitBreaker
use enterprise_llm_assistant.Prelude.{
  ℕ, ◌+◌, String, true, false, none, some, [], ◌∷◌, ◌≡◌, refl, arith,
}
use enterprise_llm_assistant.Prelude.{string_eq, if◌then◌else◌, ◌==◌}
use enterprise_llm_assistant.Prelude.Dict
use enterprise_llm_assistant.Prelude.Dict.{Dict}
use enterprise_llm_assistant.Prelude.Exec.{ok, raised}
use enterprise_llm_assistant.Services.LlmService
use enterprise_llm_assistant.Services.LlmService.{
  LlmResult, Provider, Cache, Metrics, Llm, generate, call_provider, read_cache, cache_key, priced,
  stream, build_llm_key, calculate_cost,
}
use enterprise_llm_assistant.Services.LlmService.Caching.{generate-twice, read_of}

abbrev pub hello : LlmResult
hello = record {
  content = "hello";
  model = "m";
  prompt_tokens = 2;
  completion_tokens = 3;
  total_tokens = 5;
  cost_usd = 0;
  cached = false;
}

-- A prompt `fail` raises; a stream breaks off after one chunk.
abbrev pub counting : Provider
counting = record {
  State = ℕ;
  name = "openai";
  generate = λ prompt n.
      if prompt == "fail" then (raised (runtime_error "down"), n + 1) else (ok hello, n + 1);
  took = λ prompt n. 0;
  cancelled = λ prompt n. n;
  stream = λ prompt n. (("he" ∷ [], some (runtime_error "down")), n + 1);
}

abbrev pub dict_cache : Cache
dict_cache = record {
  State = Dict String LlmResult;
  digest = λ provider model prompt. provider <> model <> prompt;
  get =
      λ key d. (ok (elim (Dict.lookup key d) [ none ↦ none | some result ↦ some (ok result) ]), d);
  set = λ key result ttl d. (ok tt, Dict.insert key result d);
}

found_again :
    (key : String) (result : LlmResult) (d : Dict String LlmResult)
    → Dict.lookup key (Dict.insert key result d) ≡ some result
found_again key result d = ground (arith, Dict.lookup-insert key key result d)

dict_cache-IsLawful : LlmService.IsLawful dict_cache
dict_cache-IsLawful = record {
  get-set = λ key result ttl s t written. ground (arith, found_again key result s);
}

abbrev pub twice : RetryPolicy
twice = record { max_attempts = 2; backoff = 10 }

abbrev no_metrics : Metrics
no_metrics = record {
  request_count = [];
  prompt_tokens = 0;
  completion_tokens = 0;
  request_cost = 0;
  cache_hits = 0;
  cache_misses = 0;
}

abbrev pub idle : Llm ℕ (Dict String LlmResult)
idle = record {
  provider = 0;
  cache = some [];
  slept = [];
  breaker = record {
    failure_threshold = 5;
    reset_timeout = 30;
    failure_count = 0;
    opened_at = none;
  };
  metrics = no_metrics;
}

-- The dict is empty: the read finds nothing and leaves it so.
nothing_cached :
    dict_cache.get (build_llm_key counting dict_cache defaults twice none "hi") [] ≡ (ok none, [])
unfolding Dict.lookup
nothing_cached = refl

nothing_read :
    read_of counting dict_cache defaults twice none
      (build_llm_key counting dict_cache defaults twice none "hi")
      idle
    ≡ none
unfolding Dict.lookup
nothing_read = refl

answers : (call_provider counting dict_cache defaults twice none 1 2 "hi" idle).0 ≡ ok hello
unfolding call_provider CircuitBreaker.execute Retry.execute execute_in_time string_eq
answers = refl

generate-twice_example :
    ((generate counting dict_cache defaults twice none 1 2 "hi" idle).0
      ≡ ok (priced counting dict_cache defaults twice none hello))
    × ((generate counting dict_cache defaults twice none 3 4 "hi"
          (generate counting dict_cache defaults twice none 1 2 "hi" idle).1).0
        ≡ ok (record hello { cached = true; cost_usd = 0 }))
    × ((generate counting dict_cache defaults twice none 3 4 "hi"
          (generate counting dict_cache defaults twice none 1 2 "hi" idle).1).1.provider
        ≡ (generate counting dict_cache defaults twice none 1 2 "hi" idle).1.provider)
    × ((generate counting dict_cache defaults twice none 3 4 "hi"
          (generate counting dict_cache defaults twice none 1 2 "hi" idle).1).1.breaker
        ≡ (generate counting dict_cache defaults twice none 1 2 "hi" idle).1.breaker)
generate-twice_example =
    generate-twice counting dict_cache defaults twice none 1 2 3 4 "hi" idle [] []
      (Dict.insert (build_llm_key counting dict_cache defaults twice none "hi")
        (priced counting dict_cache defaults twice none hello) [])
      hello dict_cache-IsLawful refl refl nothing_cached answers refl

down :
    (generate counting dict_cache defaults twice none 1 2 "fail" idle).0
    ≡ raised (llm_provider "down")
unfolding generate call_provider CircuitBreaker.execute Retry.execute execute_in_time string_eq
    read_cache cache_key Dict.lookup text_of
down = refl
