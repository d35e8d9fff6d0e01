-- ===== src/Config.antt =====
-- internal/config/config.go: the settings, from the environment.
pub mod Values
pub mod Load
pub mod Numbers
pub mod Laws
