-- ===== src/Ingestion/Embedding/Pass.antt =====
-- The embedding pass of a run: src/cf_knowledge_kiln/ingestion/embedding/pipeline.py, with the table
-- of embeddings of db/repositories/documents.py (EmbeddingsRepository).
use cf_knowledge_kiln.Base.{
  ℕ, suc, ◌+◌, ◌-◌, ◌==◌, leb, Bool, true, false, not, ◌&&◌, Option, none, some, List, [], ◌∷◌,
  ◌++◌, map, all, keep, length, if◌then◌else◌,
}
use cf_knowledge_kiln.Base.Texts.{Text, same}
use cf_knowledge_kiln.Ingestion.Tables.{ChunkRow}
use cf_knowledge_kiln.Ingestion.Embedding.{
  BatchError, Fanout, results, bad_batch_size, bad_concurrency, embed_chunks_concurrently, batches,
}

-- A row of `chunk_embeddings`, less what the provider gives alike for all.
pub record ChunkEmbedding (V : Type 0) : Type 0 where
  pub chunk_id : ℕ
  pub embedding : V
  pub content_hash : Text

-- The counts and errors of the pass in the summary; the last error is that of a misaligned write.
pub data EmbeddingNote : Type 0 where
  batch_failed : ℕ × ℕ × BatchError → EmbeddingNote
  misaligned : ℕ → ℕ → EmbeddingNote

pub record EmbeddingSummary : Type 0 where
  pub embeddings_created : ℕ
  pub embeddings_unchanged : ℕ
  pub embeddings_failed : ℕ
  pub errors : List EmbeddingNote

-- A chunk among the rows of its document, by its index.
abbrev pub insert_row : ChunkRow → List ChunkRow → List ChunkRow
insert_row c [] = c ∷ []
insert_row c (d ∷ ds) = if leb c.chunk_index d.chunk_index then c ∷ d ∷ ds else d ∷ insert_row c ds

abbrev pub order_by_index : List ChunkRow → List ChunkRow
order_by_index [] = []
order_by_index (c ∷ cs) = insert_row c (order_by_index cs)

unfoldable pub chunks_of : List ChunkRow → ℕ → List ChunkRow
chunks_of chunks doc = order_by_index (keep (λ c. c.document_id == doc) chunks)

-- Whether a stored hash is the chunk's.
abbrev pub has_same_hash : Option Text → Text → Bool
has_same_hash none hash = false
has_same_hash (some h) hash = same h hash

abbrev pub sizes : List (ℕ × ℕ × BatchError) → ℕ
sizes [] = 0
sizes ((start, size, e) ∷ fs) = size + sizes fs

-- `_record_batch_failures`
abbrev pub record_batch_failures : List (ℕ × ℕ × BatchError) → EmbeddingSummary → EmbeddingSummary
record_batch_failures failures s = record s {
  embeddings_failed = s.embeddings_failed + sizes failures;
  errors = s.errors ++ map batch_failed failures;
}

-- What the pass leaves: the table and the summary, and the exception that it raises, if any.
pub data PassResult (V : Type 0) : Type 0 where
  done : List (ChunkEmbedding V) → EmbeddingSummary → PassResult V
  all_failed : List (ChunkEmbedding V) → EmbeddingSummary → PassResult V
  bad_setting : List (ChunkEmbedding V) → EmbeddingSummary → PassResult V

abbrev pub has_failures : List (ℕ × ℕ × BatchError) → Bool
has_failures [] = false
has_failures (f ∷ fs) = true

abbrev pub contents : List ChunkRow → List Text
contents = map (λ (c : ChunkRow). c.content)

module _ {V : Type 0} where
  -- `existing.get(chunk_id)`
  unfoldable pub existing_hash : ℕ → List (ChunkEmbedding V) → Option Text
  existing_hash id [] = none
  existing_hash id (row ∷ rows) =
      if row.chunk_id == id then some row.content_hash else existing_hash id rows

  -- `INSERT ... ON CONFLICT (chunk_id) DO UPDATE`
  unfoldable pub upsert : ChunkEmbedding V → List (ChunkEmbedding V) → List (ChunkEmbedding V)
  upsert new [] = new ∷ []
  upsert new (row ∷ rows) =
      if row.chunk_id == new.chunk_id then new ∷ rows else row ∷ upsert new rows

  unfoldable pub is_stale : List (ChunkEmbedding V) → ChunkRow → Bool
  unfolding existing_hash
  is_stale table c = not (has_same_hash (existing_hash c.id table) c.content_hash)

  -- `_gather_chunks_needing_embed`: the chunks, and how many were up to date.
  unfoldable pub gather_chunks_needing_embed :
      List ChunkRow → List (ChunkEmbedding V) → List ℕ → List ChunkRow × ℕ
  unfolding is_stale chunks_of
  gather_chunks_needing_embed chunks table [] = ([], 0)
  gather_chunks_needing_embed chunks table (doc ∷ docs) =
      let (needed, unchanged) = gather_chunks_needing_embed chunks table docs in
      let own = chunks_of chunks doc in
      let fresh = keep (is_stale table) own in
      (fresh ++ needed, (length own - length fresh) + unchanged)

  -- The pairs of `zip(chunks, vectors)`, with what each upsert changes.
  unfoldable pub write_pairs :
      List ChunkRow → List (Option V) → List (ChunkEmbedding V) × ℕ → List (ChunkEmbedding V) × ℕ
  unfolding upsert
  write_pairs (c ∷ cs) (some v ∷ vs) (table, created) = write_pairs cs vs (
    upsert (record { chunk_id = c.id; embedding = v; content_hash = c.content_hash }) table,
    suc created,
  )
  write_pairs (c ∷ cs) (none ∷ vs) state = write_pairs cs vs state
  write_pairs [] vs state = state
  write_pairs (c ∷ cs) [] state = state

  -- `_write_embeddings`
  abbrev pub write_embeddings :
      List ChunkRow → List (Option V) → List (ChunkEmbedding V) → EmbeddingSummary → PassResult V
  write_embeddings chunks vectors table s =
      if not (length vectors == length chunks)
      then done table (record s {
        embeddings_failed = s.embeddings_failed + length chunks;
        errors = s.errors ++ misaligned (length vectors) (length chunks) ∷ [];
      })
      else let (table', created) = write_pairs chunks vectors (table, s.embeddings_created) in
        done table' (record s { embeddings_created = created })

  abbrev pub is_unset : Option V → Bool
  is_unset none = true
  is_unset (some v) = false

  abbrev pub settle :
      List ChunkRow → List (ChunkEmbedding V) → EmbeddingSummary → Fanout V → PassResult V
  settle chunks table s bad_batch_size = bad_setting table s
  settle chunks table s bad_concurrency = bad_setting table s
  settle chunks table s (results r) =
      let s' = record_batch_failures r.failures s in
      if has_failures r.failures && all is_unset r.vectors
      then all_failed table s'
      else write_embeddings chunks r.vectors table s'

  -- `embed_touched_documents`; the schedule of a pass orders the completion of its batches.
  module _ (embed_documents : ℕ → List Text → Option (List V))
      (schedule : List (ℕ × List Text) → List (ℕ × List Text)) (batch_size concurrency : ℕ) where
    abbrev pub embed_needed :
        List ChunkRow → List (ChunkEmbedding V) → EmbeddingSummary → PassResult V
    embed_needed [] table s = done table s
    embed_needed (c ∷ cs) table s = settle (c ∷ cs) table s (
        embed_chunks_concurrently embed_documents
          (schedule (batches batch_size (contents (c ∷ cs)))) (contents (c ∷ cs)) batch_size
          concurrency)

    unfoldable pub embed_touched_documents :
        List ChunkRow → List (ChunkEmbedding V) → List ℕ → EmbeddingSummary → PassResult V
    unfolding gather_chunks_needing_embed embed_chunks_concurrently write_pairs
    embed_touched_documents chunks table docs s =
        let (needed, unchanged) = gather_chunks_needing_embed chunks table docs in
        embed_needed needed table
          (record s { embeddings_unchanged = s.embeddings_unchanged + unchanged })
