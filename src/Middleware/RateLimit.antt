-- ===== src/Middleware/RateLimit.antt =====
-- app/middleware/rate_limit.py, `RateLimitMiddleware`, around the rest of the application, a step on its state.
use enterprise_llm_assistant.Core.Exceptions.{http}
use enterprise_llm_assistant.Core.Settings.{Settings, seconds}
use enterprise_llm_assistant.Prelude.{ℕ, String, Option, none, some}
use enterprise_llm_assistant.Prelude.{string_eq, if◌then◌else◌}
use enterprise_llm_assistant.Prelude.Dict
use enterprise_llm_assistant.Prelude.Exec.{raised, Exec}
use enterprise_llm_assistant.Security.AuthLimits.{Buckets, bucket_of, admit}

pub record RateLimited (S : Type 0) : Type 0 where
  pub requests : Buckets
  pub app : S

-- `request.client.host if request.client else "unknown"`
unfoldable pub host_of : Option String → String
host_of none = "unknown"
host_of (some host) = host

-- `dispatch`, with one reading of the clock; the route is called only if the request is let in.
unfoldable pub dispatch :
    {S A : Type 0} → Settings → ℕ → Option String → Exec S A → Exec (RateLimited S) A
unfolding admit bucket_of host_of
dispatch cfg now client call_next s =
    let (admitted, bucket) =
      admit cfg.rate_limit_requests (seconds cfg.rate_limit_window_seconds) now
        (bucket_of (host_of client) s.requests) in
    let requests = Dict.insert (host_of client) bucket s.requests in
    let (r, app) = call_next s.app in
    if admitted
    then (r, record { requests = requests; app = app })
    else (raised (http 429 "Rate limit exceeded"), record s { requests = requests })
