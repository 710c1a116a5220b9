-- ===== src/Ingestion/Embedding/Settled.antt =====
-- A second embedding pass, src/cf_knowledge_kiln/ingestion/embedding/pipeline.py.
use cf_knowledge_kiln.Base.{
  ℕ, suc, ◌+◌, ◌<◌, ◌==◌, true, ◌&&◌, Option, none, some, List, [], ◌∷◌, all, keep, count, length,
  All, All-split, All-append, ◌≡◌, refl, sym, ap, ◌∙◌, subst, inl, inr, Bool-cases, arith,
}
use cf_knowledge_kiln.Base.Texts.{Text}
use cf_knowledge_kiln.Ingestion.Tables.{ChunkRow}
use cf_knowledge_kiln.Ingestion.Embedding.{BatchError, results, IsReordering, batches, failures_of}
use cf_knowledge_kiln.Ingestion.Embedding.Stretches.{concat}
use cf_knowledge_kiln.Ingestion.Embedding.Slots.{
  slots, length-concat, embed_chunks_concurrently_lem,
}
use cf_knowledge_kiln.Ingestion.Embedding.Pass.{
  ChunkEmbedding, EmbeddingSummary, chunks_of, is_stale, upsert, gather_chunks_needing_embed, sizes,
  is_unset, has_failures, write_pairs, PassResult, done, all_failed, bad_setting, settle, contents,
  embed_needed, embed_touched_documents,
}
use cf_knowledge_kiln.Ingestion.Embedding.Accounts.{
  total_chunks, length-contents, sizes-failures_of, summary_of,
}
use cf_knowledge_kiln.Ingestion.Embedding.Hashes.{
  IsCurrent, existing_hash-upsert, is_stale-IsCurrent, IsCurrent-of_fresh, IsHashOf, All-kept,
  All-chunks_of, all_failed-ne-done,
}

module _ {V : Type 0} (hash : ℕ → Text) where
  abbrev row_for : ChunkRow → V → ChunkEmbedding V
  row_for c v = record { chunk_id = c.id; embedding = v; content_hash = c.content_hash }

  upsert-IsCurrent :
      (c d : ChunkRow) (v : V) (table : List (ChunkEmbedding V))
      → IsHashOf hash c
      → IsHashOf hash d
      → IsCurrent table d
      → IsCurrent (upsert (row_for c v) table) d
  upsert-IsCurrent c d v table h k now =
      existing_hash-upsert d.id (row_for c v) table ∙ elim (Bool-cases (c.id == d.id)) [
        | inl e ↦ rw e (ap some (h ∙ (ap hash (ground arith) ∙ sym k)))
        | inr e ↦ rw e now
      ]

  upsert_own :
      (c : ChunkRow) (v : V) (table : List (ChunkEmbedding V))
      → IsCurrent (upsert (row_for c v) table) c
  upsert_own c v table =
      let own : (c.id == c.id) ≡ true = ground arith in
      existing_hash-upsert c.id (row_for c v) table ∙ rw own

  write_pairs_keeps :
      (d : ChunkRow) (cs : List ChunkRow) (vs : List (Option V)) (table : List (ChunkEmbedding V))
      (n : ℕ)
      → IsHashOf hash d
      → All (IsHashOf hash) cs
      → IsCurrent table d
      → IsCurrent (write_pairs cs vs (table, n)).0 d
  unfolding write_pairs
  write_pairs_keeps d [] vs table n k h now = now
  write_pairs_keeps d (c ∷ cs) [] table n k h now = now
  write_pairs_keeps d (c ∷ cs) (some v ∷ vs) table n k h now =
      write_pairs_keeps d cs vs (upsert (row_for c v) table) (suc n) k h.1
        (upsert-IsCurrent c d v table h.0 k now)
  write_pairs_keeps d (c ∷ cs) (none ∷ vs) table n k h now =
      write_pairs_keeps d cs vs table n k h.1 now

  -- Where every slot has a vector, every chunk is current afterwards.
  write_pairs-IsCurrent :
      (cs : List ChunkRow) (vs : List (Option V)) (table : List (ChunkEmbedding V)) (n : ℕ)
      → All (IsHashOf hash) cs
      → length vs ≡ length cs
      → count is_unset vs ≡ 0
      → All (IsCurrent (write_pairs cs vs (table, n)).0) cs
  unfolding write_pairs
  write_pairs-IsCurrent [] vs table n h l set = tt
  write_pairs-IsCurrent (c ∷ cs) [] table n h l set = absurd (omega arith)
  write_pairs-IsCurrent (c ∷ cs) (none ∷ vs) table n h l set = absurd (omega arith)
  write_pairs-IsCurrent (c ∷ cs) (some v ∷ vs) table n h l set = (
    write_pairs_keeps c cs vs (upsert (row_for c v) table) (suc n) h.0 h.1 (upsert_own c v table),
    write_pairs-IsCurrent cs vs (upsert (row_for c v) table) (suc n) h.1 (omega arith)
        (omega arith),
  )

  -- What the gathering leaves out was current.
  IsCurrent-again :
      (before after : List (ChunkEmbedding V)) (own : List ChunkRow)
      → ((c : ChunkRow) → IsHashOf hash c → IsCurrent before c → IsCurrent after c)
      → All (IsHashOf hash) own
      → All (IsCurrent after) (keep (is_stale before) own)
      → All (IsCurrent after) own
  IsCurrent-again before after [] keeps h now = tt
  IsCurrent-again before after (c ∷ own) keeps h now = elim (Bool-cases (is_stale before c)) [
    | inl e ↦
        let both : All (IsCurrent after) (c ∷ keep (is_stale before) own) = rw e at now in
        (both.0, IsCurrent-again before after own keeps h.1 both.1)
    | inr e ↦
        let rest : All (IsCurrent after) (keep (is_stale before) own) = rw e at now in
        (
          keeps c h.0 (IsCurrent-of_fresh before c e),
          IsCurrent-again before after own keeps h.1 rest,
        )
  ]

  none_stale :
      (after : List (ChunkEmbedding V)) (own : List ChunkRow)
      → All (IsCurrent after) own
      → keep (is_stale after) own ≡ []
  none_stale after [] now = refl
  none_stale after (c ∷ own) now =
      rw (is_stale-IsCurrent after c now.0) (none_stale after own now.1)

  nothing_gathered :
      (before after : List (ChunkEmbedding V)) (chunks : List ChunkRow) (docs : List ℕ)
      → ((c : ChunkRow) → IsHashOf hash c → IsCurrent before c → IsCurrent after c)
      → All (IsHashOf hash) chunks
      → All (IsCurrent after) (gather_chunks_needing_embed chunks before docs).0
      → gather_chunks_needing_embed chunks after docs ≡ ([], total_chunks chunks docs)
  unfolding gather_chunks_needing_embed
  nothing_gathered before after chunks [] keeps h now = refl
  nothing_gathered before after chunks (doc ∷ docs) keeps h now =
      let own = chunks_of chunks doc in
      let (fresh, rest) =
        All-split (IsCurrent after) (keep (is_stale before) own)
          (gather_chunks_needing_embed chunks before docs).0 now in
      let empty =
        none_stale after own
          (IsCurrent-again before after own keeps (All-chunks_of hash chunks doc h) fresh) in
      rw (empty, nothing_gathered before after chunks docs keeps h rest)
        (ap (λ (n : ℕ). let found : List ChunkRow × ℕ = ([], n) in found) (omega arith))

  -- The pass has left each of these chunks current, and those that were.
  pub record Settles (before : List (ChunkEmbedding V)) (needed : List ChunkRow)
      (after : List (ChunkEmbedding V)) : Type 0 where
    pub now : All (IsCurrent after) needed
    pub keeps : (c : ChunkRow) → IsHashOf hash c → IsCurrent before c → IsCurrent after c

  abbrev table_of : PassResult V → List (ChunkEmbedding V)
  table_of (done table s) = table
  table_of (all_failed table s) = table
  table_of (bad_setting table s) = table

  settle-Settles :
      (cs : List ChunkRow) (table table' : List (ChunkEmbedding V)) (s s' : EmbeddingSummary)
      (vs : List (Option V)) (failures : List (ℕ × ℕ × BatchError))
      → length vs ≡ length cs
      → sizes failures ≡ count is_unset vs
      → All (IsHashOf hash) cs
      → settle cs table s (results (record { vectors = vs; failures = failures })) ≡ done table' s'
      → s'.embeddings_failed ≡ s.embeddings_failed
      → Settles table cs table'
  settle-Settles cs table table' s s' vs failures l f k h same_failed =
      elim (Bool-cases (has_failures failures && all is_unset vs)) [
        | inl e ↦ absurd (all_failed-ne-done (rw e at h))
        | inr e ↦
            let aligned : (length vs == length cs) ≡ true = ground arith in
            let ended = rw (e, aligned) at h in
            let failed : s.embeddings_failed + sizes failures ≡ s'.embeddings_failed =
              ap (λ (r : PassResult V). (summary_of r).embeddings_failed) ended in
            subst (Settles table cs) (ap table_of ended) (record {
              now =
                  write_pairs-IsCurrent cs vs table s.embeddings_created k l
                    (omega (arith, f, failed));
              keeps = λ c hc now. write_pairs_keeps c cs vs table s.embeddings_created hc k now;
            })
      ]

module _ {V : Type 0} (embed_documents : ℕ → List Text → Option (List V))
    (schedule : List (ℕ × List Text) → List (ℕ × List Text)) (batch_size concurrency : ℕ)
    (hash : ℕ → Text) (sized : 0 < batch_size) (parallel : 0 < concurrency)
    (reorders : (bs : List (ℕ × List Text)) → IsReordering bs (schedule bs)) where
  embed_needed-Settles :
      (cs : List ChunkRow) (table table' : List (ChunkEmbedding V)) (s s' : EmbeddingSummary)
      → All (IsHashOf hash) cs
      → embed_needed embed_documents schedule batch_size concurrency cs table s ≡ done table' s'
      → s'.embeddings_failed ≡ s.embeddings_failed
      → Settles hash table cs table'
  embed_needed-Settles [] table table' s s' k h f =
      subst (Settles hash table []) (ap (table_of hash) h)
        (record { now = tt; keeps = λ c hc now. now })
  embed_needed-Settles (c ∷ cs) table table' s s' k h f =
      let texts = contents (c ∷ cs) in
      let bs = batches batch_size texts in
      settle-Settles hash (c ∷ cs) table table' s s' (concat (slots embed_documents) bs)
        (failures_of embed_documents bs)
        (length-concat embed_documents batch_size texts sized ∙ length-contents (c ∷ cs))
        (sizes-failures_of embed_documents bs) k
        (rw
          (embed_chunks_concurrently_lem embed_documents (schedule bs) texts batch_size concurrency
            sized parallel (reorders bs))
          at h)
        f

  All-gathered :
      (chunks : List ChunkRow) (table : List (ChunkEmbedding V)) (docs : List ℕ)
      → All (IsHashOf hash) chunks
      → All (IsHashOf hash) (gather_chunks_needing_embed chunks table docs).0
  unfolding gather_chunks_needing_embed
  All-gathered chunks table [] h = tt
  All-gathered chunks table (doc ∷ docs) h =
      All-append (IsHashOf hash) (keep (is_stale table) (chunks_of chunks doc)) _
        (All-kept (IsHashOf hash) (is_stale table) (chunks_of chunks doc)
          (All-chunks_of hash chunks doc h))
        (All-gathered chunks table docs h)

-- For positive settings and chunks whose identifiers each have one hash, after a pass that ended
-- with no failure a second pass over the same chunks consults no provider, leaves the table as it
-- is and counts every chunk as unchanged.
pub embed_touched_documents_again :
    {V : Type 0} (first second : ℕ → List Text → Option (List V))
    (schedule other : List (ℕ × List Text) → List (ℕ × List Text)) (batch_size concurrency : ℕ)
    (chunks : List ChunkRow) (table table' : List (ChunkEmbedding V)) (docs : List ℕ)
    (s s' t : EmbeddingSummary) (hash : ℕ → Text)
    → 0 < batch_size
    → 0 < concurrency
    → ((bs : List (ℕ × List Text)) → IsReordering bs (schedule bs))
    → All (IsHashOf hash) chunks
    → embed_touched_documents first schedule batch_size concurrency chunks table docs s
      ≡ done table' s'
    → s'.embeddings_failed ≡ s.embeddings_failed
    → embed_touched_documents second other batch_size concurrency chunks table' docs t
      ≡ done table'
          (record t { embeddings_unchanged = t.embeddings_unchanged + total_chunks chunks docs })
unfolding embed_touched_documents
embed_touched_documents_again first second schedule other batch_size concurrency chunks table table'
      docs s s' t hash p q r k h f =
    let (needed, unchanged) = gather_chunks_needing_embed chunks table docs in
    let settled =
      embed_needed-Settles first schedule batch_size concurrency hash p q r needed table table'
        (record s { embeddings_unchanged = s.embeddings_unchanged + unchanged }) s'
        (All-gathered first schedule batch_size concurrency hash p q r chunks table docs k) h f in
    rw (nothing_gathered hash table table' chunks docs settled.keeps k settled.now) refl
