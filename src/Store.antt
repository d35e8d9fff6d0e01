-- ===== src/Store.antt =====
-- internal/ast/store/store.go: the cache of symbol records over an embedded key-value database.
pub mod Keys
pub mod Backend
pub mod Put
pub mod Lookup
pub mod Prune
pub mod Stats
