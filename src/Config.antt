-- ===== src/Config.antt =====
-- internal/config/config.go: the settings, read from the environment, and their checks.
pub mod Settings
pub mod Environment
pub mod Size
pub mod Loading
pub mod Valid
