-- ===== src/Tests.antt =====
-- The theorems at concrete inputs, and runs of the definitions.
pub mod Samples
mod Limits
mod Metadata
mod Caches
mod Rankings
mod Chunks
mod Packs
mod Queue
mod Retries
mod Access
mod Files
mod Answers
mod Engine
mod Remote
mod Embeddings
mod Expansions
