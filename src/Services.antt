-- ===== src/Services.antt =====
-- app/services: the operations behind the routes.
pub mod AuthService
pub mod LlmService
pub mod Prompts
pub mod OutputParser
pub mod ChatService
pub mod DocumentService
pub mod Alerts
pub mod OpsNotifier
pub mod OpsSetup
pub mod OpsAdvisory
pub mod OpsDiagnosis
