-- ===== src/Ingestion/Embedding/Accounts.antt =====
-- The counts of the embedding pass, src/cf_knowledge_kiln/ingestion/embedding/pipeline.py.
use cf_knowledge_kiln.Base.{
  ℕ, zero, suc, ◌+◌, ◌≤◌, ◌<◌, ◌==◌, Bool, true, ◌&&◌, Option, none, some, List, [], ◌∷◌, ◌++◌, map,
  all, keep, count, length, length-append, ◌≡◌, refl, sym, ◌∙◌, inl, inr, Bool-cases, and_true,
  arith,
}
use cf_knowledge_kiln.Base.Texts.{Text}
use cf_knowledge_kiln.Ingestion.Tables.{ChunkRow}
use cf_knowledge_kiln.Ingestion.Embedding.{
  BatchError, BatchOutcome, vectors_of, failed, results, IsReordering, batches, outcome,
  failures_of, with_failure, replicate,
}
use cf_knowledge_kiln.Ingestion.Embedding.Stretches.{concat}
use cf_knowledge_kiln.Ingestion.Embedding.Slots.{
  slots, slots_of, length-concat, embed_chunks_concurrently_lem,
}
use cf_knowledge_kiln.Ingestion.Embedding.Pass.{
  ChunkEmbedding, EmbeddingSummary, chunks_of, is_stale, gather_chunks_needing_embed, sizes,
  is_unset, has_failures, write_pairs, PassResult, done, all_failed, bad_setting, settle, contents,
  embed_needed, embed_touched_documents,
}

-- How many chunks the documents have.
abbrev pub total_chunks : List ChunkRow → List ℕ → ℕ
total_chunks chunks [] = 0
total_chunks chunks (doc ∷ docs) = length (chunks_of chunks doc) + total_chunks chunks docs

-- The chunks that the summary accounts for.
abbrev pub accounted : EmbeddingSummary → ℕ
accounted s = s.embeddings_created + s.embeddings_unchanged + s.embeddings_failed

abbrev pub summary_of : {V : Type 0} → PassResult V → EmbeddingSummary
summary_of (done table s) = s
summary_of (all_failed table s) = s
summary_of (bad_setting table s) = s

length-keep : {A : Type 0} (p : A → Bool) (xs : List A) → length (keep p xs) ≤ length xs
length-keep p [] = omega arith
length-keep p (x ∷ xs) = ground (arith, length-keep p xs)

count-append :
    {A : Type 0} (p : A → Bool) (xs ys : List A) → count p (xs ++ ys) ≡ count p xs + count p ys
count-append p [] ys = omega arith
count-append p (x ∷ xs) ys = ground (arith, count-append p xs ys)

pub length-contents : (cs : List ChunkRow) → length (contents cs) ≡ length cs
length-contents [] = refl
length-contents (c ∷ cs) = omega (arith, length-contents cs)

count-unset : (V : Type 0) (n : ℕ) → count is_unset (replicate {A = Option V} n none) ≡ n
count-unset V zero = refl
count-unset V (suc n) = omega (arith, count-unset V n)

module _ {V : Type 0} where
  gathered_total :
      (chunks : List ChunkRow) (table : List (ChunkEmbedding V)) (docs : List ℕ)
      → length (gather_chunks_needing_embed chunks table docs).0
          + (gather_chunks_needing_embed chunks table docs).1
        ≡ total_chunks chunks docs
  unfolding gather_chunks_needing_embed
  gathered_total chunks table [] = omega arith
  gathered_total chunks table (doc ∷ docs) =
      let own = chunks_of chunks doc in
      let fresh = keep (is_stale table) own in
      omega (
        arith,
        gathered_total chunks table docs,
        length-keep (is_stale table) own,
        length-append {0} fresh (gather_chunks_needing_embed chunks table docs).0,
      )

  count-set : (vs : List V) → count is_unset (map some vs) ≡ 0
  count-set [] = refl
  count-set (v ∷ vs) = omega (arith, count-set vs)

  -- Every pair writes a vector, or has none.
  created-write_pairs :
      (cs : List ChunkRow) (vs : List (Option V)) (table : List (ChunkEmbedding V)) (created : ℕ)
      → length vs ≡ length cs
      → (write_pairs cs vs (table, created)).1 + count is_unset vs ≡ created + length vs
  unfolding write_pairs
  created-write_pairs [] [] table created h = omega arith
  created-write_pairs [] (v ∷ vs) table created h = absurd (omega arith)
  created-write_pairs (c ∷ cs) [] table created h = absurd (omega arith)
  created-write_pairs (c ∷ cs) (some v ∷ vs) table created h =
      omega (arith, created-write_pairs cs vs _ (suc created) (omega arith))
  created-write_pairs (c ∷ cs) (none ∷ vs) table created h =
      omega (arith, created-write_pairs cs vs table created (omega arith))

  pub sizes-failures_of :
      (embed_documents : ℕ → List Text → Option (List V)) (bs : List (ℕ × List Text))
      → sizes (failures_of embed_documents bs) ≡ count is_unset (concat (slots embed_documents) bs)
  unfolding failures_of
  sizes-failures_of embed_documents [] = refl
  sizes-failures_of embed_documents (b ∷ bs) =
      sizes_with (sizes-failures_of embed_documents bs) (outcome embed_documents b)
      ∙ sym (count-append is_unset (slots embed_documents b) (concat (slots embed_documents) bs))
    where
      sizes_with :
          sizes (failures_of embed_documents bs)
            ≡ count is_unset (concat (slots embed_documents) bs)
          → (o : BatchOutcome V)
          → sizes (with_failure embed_documents b o (failures_of embed_documents bs))
            ≡ count is_unset (slots_of embed_documents (length b.1) o)
              + count is_unset (concat (slots embed_documents) bs)
      sizes_with ih (vectors_of vs) = omega (arith, count-set vs, ih)
      sizes_with ih (failed e) = omega (arith, count-unset V (length b.1), ih)

  all_unset : (vs : List (Option V)) → all is_unset vs ≡ true → count is_unset vs ≡ length vs
  all_unset [] h = refl
  all_unset (v ∷ vs) h = ground (arith, all_unset vs)

  -- A settled fan-out accounts for each chunk once.
  accounted-settle :
      (cs : List ChunkRow) (table : List (ChunkEmbedding V)) (s : EmbeddingSummary)
      (vs : List (Option V)) (failures : List (ℕ × ℕ × BatchError))
      → length vs ≡ length cs
      → sizes failures ≡ count is_unset vs
      → accounted
          (summary_of (settle cs table s (results (record { vectors = vs; failures = failures }))))
        ≡ accounted s + length cs
  accounted-settle cs table s vs failures l f =
      elim (Bool-cases (has_failures failures && all is_unset vs)) [
        | inl e ↦ rw e (omega (arith, l, f, all_unset vs (and_true (has_failures failures) _ e).1))
        | inr e ↦
            let aligned : (length vs == length cs) ≡ true = ground arith in
            rw (e, aligned)
              (omega (arith, l, f, created-write_pairs cs vs table s.embeddings_created l))
      ]

module _ {V : Type 0} (embed_documents : ℕ → List Text → Option (List V))
    (schedule : List (ℕ × List Text) → List (ℕ × List Text)) (batch_size concurrency : ℕ)
    (sized : 0 < batch_size) (parallel : 0 < concurrency)
    (reorders : (bs : List (ℕ × List Text)) → IsReordering bs (schedule bs)) where
  accounted-embed_needed :
      (cs : List ChunkRow) (table : List (ChunkEmbedding V)) (s : EmbeddingSummary)
      → accounted
          (summary_of (embed_needed embed_documents schedule batch_size concurrency cs table s))
        ≡ accounted s + length cs
  accounted-embed_needed [] table s = omega arith
  accounted-embed_needed (c ∷ cs) table s =
      let texts = contents (c ∷ cs) in
      let bs = batches batch_size texts in
      rw
        (embed_chunks_concurrently_lem embed_documents (schedule bs) texts batch_size concurrency
          sized parallel (reorders bs))
        (accounted-settle (c ∷ cs) table s (concat (slots embed_documents) bs)
          (failures_of embed_documents bs)
          (length-concat embed_documents batch_size texts sized ∙ length-contents (c ∷ cs))
          (sizes-failures_of embed_documents bs))

-- For positive settings, whatever the provider answers and however the batches complete, and also
-- where the pass raises since every batch failed, the chunks counted as created, unchanged or
-- failed grow by the number of chunks of the documents.
pub embed_touched_documents-IsAccounted :
    {V : Type 0} (embed_documents : ℕ → List Text → Option (List V))
    (schedule : List (ℕ × List Text) → List (ℕ × List Text)) (batch_size concurrency : ℕ)
    (chunks : List ChunkRow) (table : List (ChunkEmbedding V)) (docs : List ℕ)
    (s : EmbeddingSummary)
    → 0 < batch_size
    → 0 < concurrency
    → ((bs : List (ℕ × List Text)) → IsReordering bs (schedule bs))
    → accounted (
        summary_of (
          embed_touched_documents embed_documents schedule batch_size concurrency chunks table docs
            s))
      ≡ accounted s + total_chunks chunks docs
unfolding embed_touched_documents
embed_touched_documents-IsAccounted embed_documents schedule batch_size concurrency chunks table
      docs s p q r =
    let (needed, unchanged) = gather_chunks_needing_embed chunks table docs in
    omega (
      arith,
      accounted-embed_needed embed_documents schedule batch_size concurrency p q r needed table
          (record s { embeddings_unchanged = s.embeddings_unchanged + unchanged }),
      gathered_total chunks table docs,
    )
