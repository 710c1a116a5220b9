-- ===== src/Ingestion.antt =====
-- The ingestion of documents, src/cf_knowledge_kiln/ingestion.
pub mod Chunking
pub mod Jobs
pub mod Frontmatter
pub mod Tables
pub mod Files
pub mod JsonSafe
pub mod Walk
pub mod Remote
pub mod Embedding
pub mod Run
