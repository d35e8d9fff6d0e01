-- ===== src/Httpapi.antt =====
-- The management API, internal/httpapi.
pub mod Jobs
pub mod Server
