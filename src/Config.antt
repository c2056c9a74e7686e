-- ===== src/Config.antt =====
-- internal/config/config.go: settings, their defaults and their checks.
pub mod Types
pub mod Paths
pub mod Load
mod Valid
pub mod Tests
