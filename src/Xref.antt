-- ===== src/Xref.antt =====
-- Cross references, internal/xref.
pub mod Source
pub mod Compact
pub mod Service
