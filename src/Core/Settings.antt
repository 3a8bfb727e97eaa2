-- ===== src/Core/Settings.antt =====
-- The settings of app/core/config.py that the modelled code reads. They come from the environment, so a
-- theorem quantifies over them; `defaults` are the values in the source.
use Prim.Native.Nat.{ℕ, zero, suc, ◌*◌}
use Prim.Native.String.{String}
use mathlib.Core.Bool.{Bool, true, false}
use mathlib.Core.Option.{Option, none, some}

-- Every clock reading and duration is a number of microseconds, unless its name says seconds.
abbrev pub seconds : ℕ → ℕ
seconds n = n * 1_000_000

pub record Settings : Type 0 where
  pub model_name : String
  pub cache_ttl_seconds : ℕ
  pub cache_enabled : Bool
  pub top_n : ℕ
  pub memory_enabled : Bool
  pub embedding_dimension : ℕ
  pub chunk_size : ℕ
  pub chunk_overlap : ℕ
  pub retry_max_attempts : ℕ
  pub retry_backoff : ℕ
  pub request_timeout : ℕ
  pub circuit_breaker_failure_threshold : ℕ
  pub circuit_breaker_reset_timeout : ℕ
  pub rate_limit_requests : ℕ
  pub rate_limit_window_seconds : ℕ
  pub session_backend : String
  pub session_ttl_seconds : ℕ
  pub oauth_state_ttl_seconds : ℕ
  pub auth_min_password_length : ℕ
  pub auth_login_max_failures : ℕ
  pub auth_lockout_seconds : ℕ
  pub auth_rate_limit_requests : ℕ
  pub auth_rate_limit_window_seconds : ℕ
  pub default_user_role : String
  pub memory_max_messages : ℕ
  pub memory_max_chars : ℕ
  pub k8s_auth_mode : String
  pub kubeconfig_path : String
  pub k8s_default_namespace : String
  pub k8s_max_scale_replicas : ℕ
  pub debug : Bool
  pub app_public_url : String
  pub auth_dev_token_enabled : Bool
  pub session_cookie_name : String
  pub session_cookie_secure : Bool
  pub session_cookie_samesite : String
  pub csrf_cookie_name : String
  pub csrf_header_name : String
  pub ops_webhook_secret : String
  pub ops_slack_webhook_url : String
  pub ops_use_llm_hypothesis : Bool

abbrev pub defaults : Settings
defaults = record {
  model_name = "gpt-4o-mini";
  cache_ttl_seconds = 3600;
  cache_enabled = true;
  top_n = 3;
  memory_enabled = true;
  embedding_dimension = 1536;
  chunk_size = 100;
  chunk_overlap = 10;
  retry_max_attempts = 3;
  retry_backoff = seconds 1;
  request_timeout = seconds 60;
  circuit_breaker_failure_threshold = 5;
  circuit_breaker_reset_timeout = seconds 30;
  rate_limit_requests = 100;
  rate_limit_window_seconds = 60;
  session_backend = "memory";
  session_ttl_seconds = 1_209_600;
  oauth_state_ttl_seconds = 600;
  auth_min_password_length = 8;
  auth_login_max_failures = 5;
  auth_lockout_seconds = 900;
  auth_rate_limit_requests = 20;
  auth_rate_limit_window_seconds = 60;
  default_user_role = "user";
  memory_max_messages = 10;
  memory_max_chars = 8000;
  k8s_auth_mode = "mock";
  kubeconfig_path = "";
  k8s_default_namespace = "default";
  k8s_max_scale_replicas = 20;
  debug = false;
  app_public_url = "http://localhost:8000";
  auth_dev_token_enabled = false;
  session_cookie_name = "session_id";
  session_cookie_secure = false;
  session_cookie_samesite = "lax";
  csrf_cookie_name = "csrf_token";
  csrf_header_name = "X-CSRF-Token";
  ops_webhook_secret = "";
  ops_slack_webhook_url = "";
  ops_use_llm_hypothesis = true;
}

-- `value or default`: an absent number and 0 both give the default.
unfoldable pub or_default : Option ℕ → ℕ → ℕ
or_default none default = default
or_default (some zero) default = default
or_default (some (suc n)) default = suc n
