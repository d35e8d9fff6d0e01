-- ===== src/Lsp.antt =====
-- The language server client, internal/lsp.
pub mod Protocol
pub mod Command
pub mod Manager
pub mod Client
pub mod Stdio
