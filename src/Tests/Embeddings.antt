-- ===== src/Tests/Embeddings.antt =====
-- The embedding pass at concrete inputs.
use cf_knowledge_kiln.Base.{
  ℕ, ◌+◌, ◌==◌, Option, none, some, List, [], ◌∷◌, map, length, ◌≡◌, refl, arith, if◌then◌else◌,
}
use cf_knowledge_kiln.Base.Texts.{Text, codes}
use cf_knowledge_kiln.Ingestion.Tables.{ChunkRow}
use cf_knowledge_kiln.Ingestion.Embedding.{
  IsReordering, unchanged, swapped, batches, results, failures_of, embed_chunks_concurrently,
}
use cf_knowledge_kiln.Ingestion.Embedding.Stretches.{concat}
use cf_knowledge_kiln.Ingestion.Embedding.Slots.{slots, embed_chunks_concurrently_lem}
use cf_knowledge_kiln.Ingestion.Embedding.Pass.{
  ChunkEmbedding, EmbeddingSummary, done, embed_touched_documents,
}
use cf_knowledge_kiln.Ingestion.Embedding.Accounts.{
  accounted, summary_of, total_chunks, embed_touched_documents-IsAccounted,
}
use cf_knowledge_kiln.Ingestion.Embedding.Settled.{embed_touched_documents_again}

-- The vector of a text is its length.
abbrev lengths : ℕ → List Text → Option (List ℕ)
lengths start texts = some (map (λ (t : Text). length t) texts)

-- The batch from the third text on fails.
abbrev failing : ℕ → List Text → Option (List ℕ)
failing start texts = if start == 2 then none else lengths start texts

abbrev offline : ℕ → List Text → Option (List ℕ)
offline start texts = none

-- The second batch overtakes the first.
abbrev overtaking : List (ℕ × List Text) → List (ℕ × List Text)
overtaking [] = []
overtaking (b ∷ []) = b ∷ []
overtaking (b ∷ c ∷ bs) = c ∷ b ∷ bs

overtaking-IsReordering : (bs : List (ℕ × List Text)) → IsReordering bs (overtaking bs)
overtaking-IsReordering [] = unchanged []
overtaking-IsReordering (b ∷ []) = unchanged (b ∷ [])
overtaking-IsReordering (b ∷ c ∷ bs) = swapped b c bs

abbrev texts : List Text
texts = codes "a" ∷ codes "bb" ∷ codes "ccc" ∷ []

overtaken :
    embed_chunks_concurrently failing (overtaking (batches 2 texts)) texts 2 4
    ≡ results (record {
      vectors = concat (slots failing) (batches 2 texts);
      failures = failures_of failing (batches 2 texts);
    })
unfolding embed_chunks_concurrently failures_of
overtaken = refl

embed_chunks_concurrently_lem_example :
    embed_chunks_concurrently failing (overtaking (batches 2 texts)) texts 2 4
    ≡ results (record {
      vectors = concat (slots failing) (batches 2 texts);
      failures = failures_of failing (batches 2 texts);
    })
embed_chunks_concurrently_lem_example =
    embed_chunks_concurrently_lem failing (overtaking (batches 2 texts)) texts 2 4 (omega arith)
      (omega arith) (overtaking-IsReordering (batches 2 texts))

abbrev chunk : ℕ → Text → ChunkRow
chunk id content = record {
  id = id;
  document_id = 7;
  chunk_index = id;
  content = content;
  content_tokens = 1;
  content_hash = content;
  heading_path = [];
  metadata = record { matched_pattern = none; matched_sensitive_pattern = none };
}

abbrev chunks : List ChunkRow
chunks = chunk 0 (codes "a") ∷ chunk 1 (codes "bb") ∷ chunk 2 (codes "ccc") ∷ []

abbrev content_of : ℕ → Text
content_of id = if id == 0 then codes "a" else if id == 1 then codes "bb" else codes "ccc"

abbrev nothing : EmbeddingSummary
nothing = record {
  embeddings_created = 0;
  embeddings_unchanged = 0;
  embeddings_failed = 0;
  errors = [];
}

abbrev stored : List (ChunkEmbedding ℕ)
stored =
    record { chunk_id = 0; embedding = 1; content_hash = codes "a" }
    ∷ record { chunk_id = 1; embedding = 2; content_hash = codes "bb" }
    ∷ record { chunk_id = 2; embedding = 3; content_hash = codes "ccc" }
    ∷ []

first_pass :
    embed_touched_documents lengths overtaking 2 4 chunks [] (7 ∷ []) nothing
    ≡ done stored (record nothing { embeddings_created = 3 })
unfolding embed_touched_documents
first_pass = refl

embed_touched_documents-IsAccounted_example :
    accounted
      (summary_of (embed_touched_documents failing overtaking 2 4 chunks [] (7 ∷ []) nothing))
    ≡ accounted nothing + total_chunks chunks (7 ∷ [])
embed_touched_documents-IsAccounted_example =
    embed_touched_documents-IsAccounted failing overtaking 2 4 chunks [] (7 ∷ []) nothing
      (omega arith) (omega arith) overtaking-IsReordering

embed_touched_documents_again_example :
    embed_touched_documents offline overtaking 2 4 chunks stored (7 ∷ []) nothing
    ≡ done stored (record nothing { embeddings_unchanged = 0 + total_chunks chunks (7 ∷ []) })
embed_touched_documents_again_example =
    embed_touched_documents_again lengths offline overtaking overtaking 2 4 chunks [] stored
      (7 ∷ []) nothing (record nothing { embeddings_created = 3 }) nothing content_of (omega arith)
      (omega arith) overtaking-IsReordering (refl, (refl, (refl, tt))) first_pass refl
