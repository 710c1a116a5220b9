-- ===== src/Ingestion/Chunking.antt =====
-- The Markdown chunker of src/cf_knowledge_kiln/ingestion/chunking.py: its pieces.
pub mod Blocks
pub mod Scan
pub mod Lossless
pub mod Sections
pub mod Packing
pub mod Document
