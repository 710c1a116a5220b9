-- ===== src/Retrieval.antt =====
-- The retrieval layer, under src/cf_knowledge_kiln/retrieval.
pub mod Types
pub mod WarningPolicy
pub mod Config
pub mod Ranking
pub mod Hyde
pub mod Conflicts
pub mod Engine
