-- ===== src/Core.antt =====
-- app/core: the exceptions and the settings.
pub mod Exceptions
pub mod Settings
pub mod Json
