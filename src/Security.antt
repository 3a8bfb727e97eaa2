-- ===== src/Security.antt =====
-- app/security: limits, sessions, roles and the guards of a request.
pub mod AuthLimits
pub mod Sessions
pub mod RedisSessions
pub mod SessionContract
pub mod Authentication
pub mod Guardrails
pub mod Browser
