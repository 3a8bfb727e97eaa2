-- ===== src/Policies.antt =====
-- app/policies: retries, time limits and the circuit breaker around a call of a provider.
pub mod Retry
pub mod CircuitBreaker
