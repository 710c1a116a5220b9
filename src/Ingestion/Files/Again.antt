-- ===== src/Ingestion/Files/Again.antt =====
-- A file that is processed, once and again: src/cf_knowledge_kiln/ingestion/_file_processing.py.
use cf_knowledge_kiln.Base.{
  ℕ, suc, ◌+◌, ◌≤◌, ◌==◌, Bool, true, false, ◌&&◌, Option, none, some, List, [], ◌∷◌, All,
  All-weaken, length, if◌then◌else◌, ◌≡◌, ◌≢◌, refl, sym, ap, ◌∙◌, inl, inr, Bool-cases, arith,
  none-ne-some,
}
use cf_knowledge_kiln.Base.Texts.{Text, same, same_refl}
use cf_knowledge_kiln.Ingestion.Chunking.Document.{Chunk, IsNumbered}
use cf_knowledge_kiln.Ingestion.Tables.{
  ChunkRow, DocumentRow, Database, IngestionSummary, existing_chunks, find_existing, orphan_ids,
  is_seen, delete_rows, upsert_document,
}
use cf_knowledge_kiln.Ingestion.Files.{Reader, write_chunks, delete_orphans, replace_chunks}
use cf_knowledge_kiln.Ingestion.Files.Rows.{is_at, hash_at, hash_in, find_existing-existing_chunks}

-- The identifier of the document that stands under a repository and a path.
abbrev pub document_at : Text → Text → List DocumentRow → Option ℕ
document_at repo path [] = none
document_at repo path (row ∷ rows) =
    let rest = document_at repo path rows in
    if same row.repo repo && same row.path path then some row.id else rest

pub document_at-upsert_document :
    (new : DocumentRow) (rows : List DocumentRow)
    → document_at new.repo new.path (upsert_document new rows).0 ≡ some (upsert_document new rows).1
unfolding upsert_document
document_at-upsert_document new [] = rw (same_refl new.repo, same_refl new.path) refl
document_at-upsert_document new (row ∷ rows) =
    elim (Bool-cases (same row.repo new.repo && same row.path new.path)) [
      | inl p ↦ rw (p, same_refl new.repo, same_refl new.path) refl
      | inr p ↦ rw p (rw p (document_at-upsert_document new rows))
    ]

-- A document that stands there keeps its identifier.
pub upsert_document-document_at :
    (new : DocumentRow) (rows : List DocumentRow) (id : ℕ)
    → document_at new.repo new.path rows ≡ some id
    → (upsert_document new rows).1 ≡ id
unfolding upsert_document
upsert_document-document_at new [] id h = cc
upsert_document-document_at new (row ∷ rows) id h =
    elim (Bool-cases (same row.repo new.repo && same row.path new.path)) [
      | inl p ↦ rw p (let e = rw p at h in cc)
      | inr p ↦ rw p (upsert_document-document_at new rows id (rw p at h))
    ]

numbered_above :
    (n : ℕ) (chunks : List Chunk) → IsNumbered n chunks → All (λ c. n ≤ c.chunk_index) chunks
numbered_above n [] h = tt
numbered_above n (c ∷ cs) h = (
  omega (arith, h.0),
  All-weaken (λ x. suc n ≤ x.chunk_index) _ cs (λ x l. omega arith) (numbered_above (suc n) cs h.1),
)

both {κ μ ν} :
    {P : Chunk → Type κ} {Q : Chunk → Type μ} {R : Chunk → Type ν} (chunks : List Chunk)
    → ((c : Chunk) → P c → Q c → R c)
    → All P chunks
    → All Q chunks
    → All R chunks
both [] f p q = tt
both (c ∷ cs) f p q = (f c p.0 q.0, both cs f p.1 q.1)

own_hashes :
    (n : ℕ) (chunks : List Chunk)
    → IsNumbered n chunks
    → All (λ c. hash_in c.chunk_index chunks ≡ some c.content_hash) chunks
own_hashes n [] h = tt
own_hashes n (c ∷ cs) h = (
  ground arith,
  both cs (λ x e l. ground (arith, e, h.0)) (own_hashes (suc n) cs h.1)
      (numbered_above (suc n) cs h.1),
)

delete_none : (rows : List ChunkRow) → delete_rows [] rows ≡ rows
unfolding delete_rows
delete_none [] = refl
delete_none (row ∷ rows) = ap (◌∷◌ row) (delete_none rows)

no_orphans :
    (doc : ℕ) (chunks : List Chunk) (rows : List ChunkRow)
    → All (λ r. (r.document_id == doc) ≡ true → is_seen chunks r.chunk_index ≡ true) rows
    → orphan_ids (existing_chunks doc rows) chunks ≡ []
unfolding orphan_ids existing_chunks
no_orphans doc chunks [] h = refl
no_orphans doc chunks (row ∷ rows) h = elim (Bool-cases (row.document_id == doc)) [
  | inr d ↦ rw d (no_orphans doc chunks rows h.1)
  | inl d ↦ rw (d, h.0 d) (no_orphans doc chunks rows h.1)
]

still_there :
    (b : Bool) (hash : Text) (o : Option Text) → o ≢ none → (if b then some hash else o) ≢ none
still_there true hash o h e = none-ne-some (sym e)
still_there false hash o h e = h e

test_refl : (a : ℕ) → (a == a) ≡ true
test_refl a = ground arith

-- Every row stands at its place.
hash_at_own :
    (doc : ℕ) (rows : List ChunkRow)
    → All (λ r. (r.document_id == doc) ≡ true → hash_at doc r.chunk_index rows ≢ none) rows
hash_at_own doc [] = tt
hash_at_own doc (row ∷ rows) = (
  (λ d e. none-ne-some (sym (rw (d, test_refl row.chunk_index) at e))),
  All-weaken _ _ rows (λ r f d. still_there (is_at doc r.chunk_index row) row.content_hash _ (f d))
      (hash_at_own doc rows),
)

seen_of_hash : (chunks : List Chunk) (j : ℕ) → hash_in j chunks ≢ none → is_seen chunks j ≡ true
seen_of_hash [] j h = absurd (h refl)
seen_of_hash (c ∷ cs) j h = elim (Bool-cases (c.chunk_index == j)) [
  | inl p ↦ rw p refl
  | inr p ↦ rw p (seen_of_hash cs j (rw p at h))
]

nothing : (a : ℕ) → a ≡ 0 + a
nothing a = omega arith

module _ (reader : Reader) (phrases patterns : List Text) where
  -- Chunks whose hashes all stand are only counted.
  all_kept :
      (doc : ℕ) (existing : List (ℕ × ℕ × Text)) (cs : List Chunk) (db : Database)
      (s : IngestionSummary)
      → All (λ (c : Chunk). find_existing c.chunk_index existing ≡ some c.content_hash) cs
      → write_chunks reader phrases patterns doc existing cs (db, s)
        ≡ (db, record s { chunks_unchanged = length cs + s.chunks_unchanged })
  all_kept doc existing [] db s h =
      ap (λ (n : ℕ). (db, record s { chunks_unchanged = n })) (nothing s.chunks_unchanged)
  all_kept doc existing (c ∷ cs) db s h =
      rw (h.0, same_refl c.content_hash)
        (all_kept doc existing cs db (record s { chunks_unchanged = suc s.chunks_unchanged }) h.1
          ∙ ap (λ (n : ℕ). (db, record s { chunks_unchanged = n }))
              (moved (length cs) s.chunks_unchanged))
    where
      moved : (a b : ℕ) → a + suc b ≡ suc a + b
      moved a b = omega arith

  pub replace_again :
      (doc : ℕ) (chunks : List Chunk) (db : Database) (s : IngestionSummary)
      → IsNumbered 0 chunks
      → ((j : ℕ) → hash_at doc j db.chunks ≡ hash_in j chunks)
      → replace_chunks reader phrases patterns doc chunks (db, s) ≡ (
        db,
        record s {
          chunks_unchanged = length chunks + s.chunks_unchanged;
          files_indexed = suc s.files_indexed;
        },
      )
  unfolding replace_chunks
  replace_again doc chunks db s numbered agrees =
      let existing = existing_chunks doc db.chunks in
      let kept = all_kept doc existing chunks db s (
        All-weaken _ _ chunks
          (λ c own.
            find_existing-existing_chunks doc c.chunk_index db.chunks ∙ agrees c.chunk_index ∙ own)
          (own_hashes 0 chunks numbered)) in
      let orphans = no_orphans doc chunks db.chunks (
        All-weaken _ _ db.chunks
          (λ r there d. seen_of_hash chunks r.chunk_index (λ e. there d (agrees r.chunk_index ∙ e)))
          (hash_at_own doc db.chunks)) in
      let counted = record s { chunks_unchanged = length chunks + s.chunks_unchanged } in
      ap (delete_orphans (orphan_ids existing chunks)) kept
      ∙ ap (λ (ids : List ℕ). delete_orphans ids (db, counted)) orphans
      ∙ ap
          (λ (rows : List ChunkRow).
            (record db { chunks = rows }, record counted { files_indexed = suc s.files_indexed }))
          (delete_none db.chunks)
