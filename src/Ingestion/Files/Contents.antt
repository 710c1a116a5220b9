-- ===== src/Ingestion/Files/Contents.antt =====
-- The whole rows of chunks that a processed file leaves:
-- src/cf_knowledge_kiln/ingestion/_file_processing.py.
use cf_knowledge_kiln.Base.{
  ℕ, ◌==◌, true, false, List, [], ◌∷◌, any, keep, All, All-self, All-weaken, IsAmong, ◌≡◌, refl,
  sym, ap, ◌∙◌, ◌⊎◌, inl, inr, Bool-cases, arith, or_false,
}
use cf_knowledge_kiln.Base.Texts.{Text}
use cf_knowledge_kiln.Ingestion.Chunking.Document.{Chunk}
use cf_knowledge_kiln.Ingestion.Tables.{
  ChunkRow, Database, IngestionSummary, existing_chunks, find_existing, has_hash, has_id,
  orphan_ids, upsert_row, delete_rows,
}
use cf_knowledge_kiln.Ingestion.Files.{Reader, chunk_row, write_chunks, replace_chunks}
use cf_knowledge_kiln.Ingestion.Files.Rows.{is_at, IsTable, IsMarked}
use cf_knowledge_kiln.Ingestion.Files.Convergence.{loop-IsWritten}

-- The rows of one document.
abbrev pub rows_of : ℕ → List ChunkRow → List ChunkRow
rows_of d rows = keep (λ r. r.document_id == d) rows

rows_of-upsert_row :
    (d : ℕ) (new : ChunkRow) (rows : List ChunkRow)
    → (new.document_id == d) ≡ false
    → rows_of d (upsert_row new rows) ≡ rows_of d rows
unfolding upsert_row
rows_of-upsert_row d new [] h = rw h refl
rows_of-upsert_row d new (row ∷ rows) h = ground (arith, rows_of-upsert_row d new rows h)

rows_of-delete_rows :
    (doc d : ℕ) (chunks : List Chunk) (ids : List ℕ) (rows : List ChunkRow)
    → (doc == d) ≡ false
    → All (IsMarked doc chunks ids) rows
    → rows_of d (delete_rows ids rows) ≡ rows_of d rows
unfolding delete_rows
rows_of-delete_rows doc d chunks ids [] h m = refl
rows_of-delete_rows doc d chunks ids (row ∷ rows) h m =
    ground (arith, m.0, rows_of-delete_rows doc d chunks ids rows h m.1)

-- No two rows stand at one index of one document.
abbrev pub IsDistinct : List ChunkRow → Type 0
IsDistinct [] = Unit
IsDistinct (row ∷ rows) =
    (any (is_at row.document_id row.chunk_index) rows ≡ false) × IsDistinct rows

any_at-upsert_row :
    (d j : ℕ) (new : ChunkRow) (rows : List ChunkRow)
    → is_at d j new ≡ false
    → any (is_at d j) (upsert_row new rows) ≡ any (is_at d j) rows
unfolding upsert_row
any_at-upsert_row d j new [] h = rw h refl
any_at-upsert_row d j new (row ∷ rows) h = ground (arith, any_at-upsert_row d j new rows h)

any_at-delete_rows :
    (d j : ℕ) (ids : List ℕ) (rows : List ChunkRow)
    → any (is_at d j) rows ≡ false
    → any (is_at d j) (delete_rows ids rows) ≡ false
unfolding delete_rows
any_at-delete_rows d j ids [] h = refl
any_at-delete_rows d j ids (row ∷ rows) h =
    let (first, rest) = or_false (is_at d j row) _ h in
    ground (arith, any_at-delete_rows d j ids rows rest)

upsert_row-IsDistinct :
    (new : ChunkRow) (rows : List ChunkRow) → IsDistinct rows → IsDistinct (upsert_row new rows)
unfolding upsert_row
upsert_row-IsDistinct new [] t = (refl, tt)
upsert_row-IsDistinct new (row ∷ rows) (apart, t) =
    elim (Bool-cases (is_at new.document_id new.chunk_index row)) [
      | inl p ↦ rw p (
        ap (λ (i : ℕ). any (is_at i new.chunk_index) rows) (sym (same_document p))
            ∙ ap (λ (i : ℕ). any (is_at row.document_id i) rows) (sym (same_index p))
            ∙ apart,
        t,
      )
      | inr p ↦ rw p (
        any_at-upsert_row row.document_id row.chunk_index new rows (ground (arith, p)) ∙ apart,
        upsert_row-IsDistinct new rows t,
      )
    ]
  where
    same_document :
        is_at new.document_id new.chunk_index row ≡ true → row.document_id ≡ new.document_id
    same_document p = ground (arith, p)

    same_index :
        is_at new.document_id new.chunk_index row ≡ true → row.chunk_index ≡ new.chunk_index
    same_index p = ground (arith, p)

delete_rows-IsDistinct :
    (ids : List ℕ) (rows : List ChunkRow) → IsDistinct rows → IsDistinct (delete_rows ids rows)
unfolding delete_rows
delete_rows-IsDistinct ids [] t = tt
delete_rows-IsDistinct ids (row ∷ rows) (apart, t) = elim (Bool-cases (has_id row.id ids)) [
  | inl p ↦ rw p (delete_rows-IsDistinct ids rows t)
  | inr p ↦ rw p (
    any_at-delete_rows row.document_id row.chunk_index ids rows apart,
    delete_rows-IsDistinct ids rows t,
  )
]

upsert_row-All {κ} :
    (P : ChunkRow → Type κ) (new : ChunkRow) (rows : List ChunkRow)
    → ((id : ℕ) → P (record new { id = id }))
    → All P rows
    → All P (upsert_row new rows)
unfolding upsert_row
upsert_row-All P new [] h t = (h new.id, tt)
upsert_row-All P new (row ∷ rows) h t =
    elim (Bool-cases (is_at new.document_id new.chunk_index row)) [
      | inl p ↦ rw p (h row.id, t.1)
      | inr p ↦ rw p (t.0, upsert_row-All P new rows h t.1)
    ]

delete_rows-All {κ} :
    (P : ChunkRow → Type κ) (ids : List ℕ) (rows : List ChunkRow)
    → All P rows
    → All P (delete_rows ids rows)
unfolding delete_rows
delete_rows-All P ids [] t = tt
delete_rows-All P ids (row ∷ rows) t = elim (Bool-cases (has_id row.id ids)) [
  | inl p ↦ rw p (delete_rows-All P ids rows t.1)
  | inr p ↦ rw p (t.0, delete_rows-All P ids rows t.1)
]

-- A property of the table that each write of a parsed chunk keeps, and the deletion after them.
module _ (reader : Reader) (phrases patterns : List Text) (doc : ℕ) where
  write_chunks-keeps {κ} :
      (P : List ChunkRow → Type κ) (existing : List (ℕ × ℕ × Text)) (cs : List Chunk)
      (state : Database × IngestionSummary)
      → All
          (λ c.
            (id : ℕ)
            → (rows : List ChunkRow) → P rows
            → P (upsert_row (chunk_row reader phrases patterns id doc c) rows))
          cs
      → P state.0.chunks
      → P (write_chunks reader phrases patterns doc existing cs state).0.chunks
  write_chunks-keeps P existing [] state h t = t
  write_chunks-keeps P existing (c ∷ cs) (db, s) h t =
      write_chunks-keeps P existing cs _ h.1
        (elim (Bool-cases (has_hash (find_existing c.chunk_index existing) c.content_hash)) [
          | inl p ↦ rw p t
          | inr p ↦ rw p (h.0 db.next_id db.chunks t)
        ])

  -- A row that stood in the table, or the whole row of a parsed chunk.
  abbrev pub IsFrom : List ChunkRow → List Chunk → ChunkRow → Type 0
  IsFrom before chunks row =
      IsAmong row before
      ⊎ ((c : Chunk) × IsAmong c chunks × (row ≡ chunk_row reader phrases patterns row.id doc c))

  pub replace_chunks-IsFrom :
      (chunks : List Chunk) (db : Database) (s : IngestionSummary)
      → All
          (IsFrom db.chunks chunks)
          (replace_chunks reader phrases patterns doc chunks (db, s)).0.chunks
  unfolding replace_chunks chunk_row
  replace_chunks-IsFrom chunks db s =
      let From = IsFrom db.chunks chunks in
      delete_rows-All From _ _ (
        write_chunks-keeps (All From) (existing_chunks doc db.chunks) chunks (db, s)
          (All-weaken _ _ chunks (λ c a id rows t. written c id rows a t) (All-self chunks))
          (All-weaken _ _ db.chunks (λ row a. inl a) (All-self db.chunks)))
    where
      written :
          (c : Chunk) (id : ℕ) (rows : List ChunkRow)
          → IsAmong c chunks
          → All (IsFrom db.chunks chunks) rows
          → All
              (IsFrom db.chunks chunks)
              (upsert_row (chunk_row reader phrases patterns id doc c) rows)
      written c id rows a t =
          upsert_row-All (IsFrom db.chunks chunks) (chunk_row reader phrases patterns id doc c) rows
            (λ i. inr (c, a, refl)) t

  pub replace_chunks-IsDistinct :
      (chunks : List Chunk) (db : Database) (s : IngestionSummary)
      → IsDistinct db.chunks
      → IsDistinct (replace_chunks reader phrases patterns doc chunks (db, s)).0.chunks
  unfolding replace_chunks
  replace_chunks-IsDistinct chunks db s t = delete_rows-IsDistinct _ _ (
      write_chunks-keeps IsDistinct (existing_chunks doc db.chunks) chunks (db, s)
        (All-weaken _ _ chunks (λ c a id rows t. upsert_row-IsDistinct _ rows t) (All-self chunks))
        t)

  pub replace_chunks-rows_of :
      (chunks : List Chunk) (db : Database) (s : IngestionSummary) (d : ℕ)
      → IsTable db.next_id db.chunks
      → (doc == d) ≡ false
      → rows_of d (replace_chunks reader phrases patterns doc chunks (db, s)).0.chunks
        ≡ rows_of d db.chunks
  unfolding replace_chunks chunk_row
  replace_chunks-rows_of chunks db s d table h =
      let existing = existing_chunks doc db.chunks in
      let written = loop-IsWritten reader phrases patterns doc chunks db s table in
      rows_of-delete_rows doc d chunks (orphan_ids existing chunks) _ h written.marked
      ∙ write_chunks-keeps (λ rows. rows_of d rows ≡ rows_of d db.chunks) existing chunks (db, s)
          (All-weaken _ _ chunks
            (λ c a id rows t.
              rows_of-upsert_row d (chunk_row reader phrases patterns id doc c) rows h ∙ t)
            (All-self chunks))
          refl
