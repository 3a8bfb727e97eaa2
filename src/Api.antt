-- ===== src/Api.antt =====
-- app/api.
pub mod Alertmanager
pub mod Ops
pub mod Auth
pub mod Oauth
