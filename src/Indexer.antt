-- ===== src/Indexer.antt =====
-- internal/ast/indexer/indexer.go
pub mod Options
pub mod Files
pub mod Cycle
pub mod Live
pub mod Snippet
