-- ===== src/Retrieval/Hyde.antt =====
-- Hypothetical-document expansion, under src/cf_knowledge_kiln/retrieval/hyde.
pub mod Cache
pub mod Classifier
pub mod Engine
