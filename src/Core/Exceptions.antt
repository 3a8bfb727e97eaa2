-- ===== src/Core/Exceptions.antt =====
-- app/core/exceptions.py, the exceptions of FastAPI and of Python that the modelled code raises, and the
-- status that the application's handler answers with.
use Prim.Native.Nat.{ℕ}
use Prim.Native.String.{String}
use mathlib.Core.Option.{Option, none, some}
use enterprise_llm_assistant.Prelude.Text.{decimal}
use Prim.Native.String.{◌++◌ as ◌<>◌}

pub data Exception : Type 0 where
  app : String → ℕ → Exception
  llm_provider : String → Exception
  retrieval : String → Exception
  authentication : String → Exception
  authorization : String → Exception
  guardrail : String → Exception
  cache : String → Exception
  circuit_breaker_open : String → Exception
  tool_execution : String → Exception
  unsupported_extraction : String → Exception
  http : ℕ → String → Exception
  value_error : String → Exception
  key_error : String → Exception
  runtime_error : String → Exception
  index_error : String → Exception
  type_error : String → Exception
  attribute_error : String → Exception
  overflow_error : String → Exception
  timeout_error : Exception

-- The attribute `status_code`; `none` for an exception that has none.
unfoldable pub status_code : Exception → Option ℕ
status_code (app _ status) = some status
status_code (llm_provider _) = some 503
status_code (retrieval _) = some 500
status_code (authentication _) = some 401
status_code (authorization _) = some 403
status_code (guardrail _) = some 400
status_code (cache _) = some 500
status_code (circuit_breaker_open _) = some 503
status_code (tool_execution _) = some 500
status_code (unsupported_extraction _) = some 422
status_code (http status _) = some status
status_code (value_error _) = none
status_code (key_error _) = none
status_code (runtime_error _) = none
status_code (index_error _) = none
status_code (type_error _) = none
status_code (attribute_error _) = none
status_code (overflow_error _) = none
status_code timeout_error = none

-- `str(exc)`
unfoldable pub text_of : Exception → String
text_of (app message _) = message
text_of (llm_provider message) = message
text_of (retrieval message) = message
text_of (authentication message) = message
text_of (authorization message) = message
text_of (guardrail message) = message
text_of (cache message) = message
text_of (circuit_breaker_open message) = message
text_of (tool_execution message) = message
text_of (unsupported_extraction message) = message
text_of (http status detail) = decimal status <> ": " <> detail
text_of (value_error message) = message
text_of (key_error key) = "'" <> key <> "'"
text_of (runtime_error message) = message
text_of (index_error message) = message
text_of (type_error message) = message
text_of (attribute_error message) = message
text_of (overflow_error message) = message
text_of timeout_error = ""
