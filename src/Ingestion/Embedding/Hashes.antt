-- ===== src/Ingestion/Embedding/Hashes.antt =====
-- What the hash of a chunk says of its row in the table of embeddings, for the pass of
-- src/cf_knowledge_kiln/ingestion/embedding/pipeline.py.
use cf_knowledge_kiln.Base.{
  ℕ, ◌==◌, leb, Bool, false, some, List, [], ◌∷◌, keep, All, ◌≡◌, ◌≢◌, refl, ap, ◌∙◌, inl, inr,
  Bool-cases, arith, if◌then◌else◌, Option-cases,
}
use cf_knowledge_kiln.Base.Texts.{Text, same_refl, same_sound}
use cf_knowledge_kiln.Ingestion.Tables.{ChunkRow}
use cf_knowledge_kiln.Ingestion.Embedding.Pass.{
  ChunkEmbedding, EmbeddingSummary, chunks_of, order_by_index, insert_row, is_stale, has_same_hash,
  existing_hash, upsert, done, all_failed,
}

module _ {V : Type 0} where
  -- The chunk's embedding was made from its text.
  abbrev pub IsCurrent : List (ChunkEmbedding V) → ChunkRow → Type 0
  IsCurrent table c = existing_hash c.id table ≡ some c.content_hash

  pub existing_hash-upsert :
      (id : ℕ) (new : ChunkEmbedding V) (table : List (ChunkEmbedding V))
      → existing_hash id (upsert new table)
        ≡ (if new.chunk_id == id then some new.content_hash else existing_hash id table)
  unfolding existing_hash upsert
  existing_hash-upsert id new [] = refl
  existing_hash-upsert id new (row ∷ rows) = ground (arith, existing_hash-upsert id new rows)

  pub is_stale-IsCurrent :
      (table : List (ChunkEmbedding V)) (c : ChunkRow)
      → IsCurrent table c
      → is_stale table c ≡ false
  unfolding is_stale
  is_stale-IsCurrent table c h = rw (h, same_refl c.content_hash)

  pub IsCurrent-of_fresh :
      (table : List (ChunkEmbedding V)) (c : ChunkRow)
      → is_stale table c ≡ false
      → IsCurrent table c
  unfolding is_stale
  IsCurrent-of_fresh table c h = elim (Option-cases (existing_hash c.id table)) [
    | inl e ↦ cc (rw (e, has_same_hash) at h)
    | inr (hash, e) ↦
        e ∙ ap some (same_sound hash c.content_hash (ground (arith, rw (e, has_same_hash) at h)))
  ]

-- An identifier has one hash.
abbrev pub IsHashOf : (ℕ → Text) → ChunkRow → Type 0
IsHashOf hash c = c.content_hash ≡ hash c.id

All-insert_row :
    (hash : ℕ → Text) (c : ChunkRow) (cs : List ChunkRow)
    → IsHashOf hash c
    → All (IsHashOf hash) cs
    → All (IsHashOf hash) (insert_row c cs)
All-insert_row hash c [] h k = (h, tt)
All-insert_row hash c (d ∷ ds) h k = elim (Bool-cases (leb c.chunk_index d.chunk_index)) [
  | inl e ↦ rw e (h, k)
  | inr e ↦ rw e (k.0, All-insert_row hash c ds h k.1)
]

All-order_by_index :
    (hash : ℕ → Text) (cs : List ChunkRow)
    → All (IsHashOf hash) cs
    → All (IsHashOf hash) (order_by_index cs)
All-order_by_index hash [] h = tt
All-order_by_index hash (c ∷ cs) h =
    All-insert_row hash c (order_by_index cs) h.0 (All-order_by_index hash cs h.1)

pub All-kept :
    {A : Type 0} (P : A → Type 0) (p : A → Bool) (xs : List A) → All P xs → All P (keep p xs)
All-kept P p [] h = tt
All-kept P p (x ∷ xs) h = elim (Bool-cases (p x)) [
  | inl e ↦ rw e (h.0, All-kept P p xs h.1)
  | inr e ↦ rw e (All-kept P p xs h.1)
]

pub All-chunks_of :
    (hash : ℕ → Text) (chunks : List ChunkRow) (doc : ℕ)
    → All (IsHashOf hash) chunks
    → All (IsHashOf hash) (chunks_of chunks doc)
unfolding chunks_of
All-chunks_of hash chunks doc h =
    All-order_by_index hash (keep (λ c. c.document_id == doc) chunks)
      (All-kept (IsHashOf hash) (λ c. c.document_id == doc) chunks h)

pub all_failed-ne-done :
    {V : Type 0} {t u : List (ChunkEmbedding V)} {s r : EmbeddingSummary}
    → all_failed t s ≢ done u r
all_failed-ne-done h = cc
