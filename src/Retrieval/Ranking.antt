-- ===== src/Retrieval/Ranking.antt =====
-- The ranking primitives of src/cf_knowledge_kiln/retrieval/ranking.py, one child for each part.
pub mod Chunk
pub mod Fusion
pub mod Boosts
pub mod Emitters
pub mod Isolated
pub mod Review
