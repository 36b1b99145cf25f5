-- ===== src/Cache.antt =====
-- internal/cache: responses that are served again.
pub mod Semantic
