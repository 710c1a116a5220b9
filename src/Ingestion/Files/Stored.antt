-- ===== src/Ingestion/Files/Stored.antt =====
-- What processing one file leaves in the tables, src/cf_knowledge_kiln/ingestion/_file_processing.py.
use cf_knowledge_kiln.Base.{
  ℕ, ◌+◌, ◌==◌, true, false, some, List, ◌∷◌, length, All, ◌≡◌, refl, sym, ap, subst, ◌∙◌, arith,
  some_inj,
}
use cf_knowledge_kiln.Base.Texts.{Text}
use cf_knowledge_kiln.Ingestion.Chunking.Document.{Chunk, IsNumbered}
use cf_knowledge_kiln.Ingestion.Frontmatter.{Metadata, Source, Value}
use cf_knowledge_kiln.Ingestion.Tables.{
  Database, IngestionSummary, FetchedFile, parsed, or_path, repo_label,
}
use cf_knowledge_kiln.Ingestion.Files.{
  Reader, document_row, with_document, store_chunks, State, process_file,
}
use cf_knowledge_kiln.Ingestion.Files.Rows.{hash_at, hash_in, IsTable, IsTable-grows}
use cf_knowledge_kiln.Ingestion.Files.Convergence.{
  replace_chunks-hash_at, replace_chunks-IsTable, replace_chunks-documents,
}
use cf_knowledge_kiln.Ingestion.Files.Contents.{
  IsFrom, rows_of, replace_chunks-IsFrom, replace_chunks-rows_of,
}
use cf_knowledge_kiln.Ingestion.Files.Again.{
  document_at, document_at-upsert_document, upsert_document-document_at, replace_again,
}

-- What a processed file leaves in the tables.
pub record IsStored (reader : Reader) (phrases patterns : List Text) (repo path : Text)
    (chunks : List Chunk) (before after : Database) : Type 0 where
  pub document_id : ℕ
  pub document : document_at repo path after.documents ≡ some document_id
  pub its_chunks : (index : ℕ) → hash_at document_id index after.chunks ≡ hash_in index chunks
  pub rows : All (IsFrom reader phrases patterns document_id before.chunks chunks) after.chunks
  pub others :
      (d : ℕ) → (document_id == d) ≡ false → rows_of d after.chunks ≡ rows_of d before.chunks
  pub table : IsTable after.next_id after.chunks

module _ (reader : Reader) (phrases patterns : List Text) (source : Source)
    (file : FetchedFile) where
  processed :
      (content : Text) (title : Value) (name : Text) (metadata : Metadata) (c : Chunk)
      (cs : List Chunk) (state : State)
      → file.content ≡ some content
      → reader.parse content ≡ parsed title metadata (c ∷ cs)
      → or_path title file.path ≡ some name
      → process_file reader phrases patterns source file state
        ≡ some (store_chunks reader phrases patterns source file name metadata (c ∷ cs) state)
  unfolding process_file
  processed content title name metadata c cs (db, s, touched) h p t = rw (h, p, t) refl

  store_chunks-IsStored :
      (title : Text) (metadata : Metadata) (chunks : List Chunk) (state : State)
      → IsNumbered 0 chunks
      → IsTable state.0.next_id state.0.chunks
      → IsStored reader phrases patterns
          (repo_label source)
          file.path
          chunks
          state.0
          (store_chunks reader phrases patterns source file title metadata chunks state).0
  store_chunks-IsStored title metadata chunks (db, s, touched) numbered table =
      let row = document_row reader phrases patterns source file title metadata db.next_id in
      let (prepared, doc) = with_document row db in
      let kept = IsTable-grows db.next_id db.chunks table in
      record {
        document_id = doc;
        document =
            ap (document_at row.repo row.path)
              (replace_chunks-documents reader phrases patterns doc chunks prepared s)
            ∙ document_at-upsert_document row db.documents;
        its_chunks = λ j.
            replace_chunks-hash_at reader phrases patterns doc chunks prepared s doc j numbered kept
            ∙ rw (test_refl doc) refl;
        rows = replace_chunks-IsFrom reader phrases patterns doc chunks prepared s;
        others = λ d apart.
            replace_chunks-rows_of reader phrases patterns doc chunks prepared s d kept apart;
        table = replace_chunks-IsTable reader phrases patterns doc chunks prepared s kept;
      }
    where
      test_refl : (a : ℕ) → (a == a) ≡ true
      test_refl a = ground arith

  -- A file whose document is as parsed changes the counters alone.
  stored_settled :
      (title : Text) (metadata : Metadata) (chunks : List Chunk) (state : State) (id : ℕ)
      → IsNumbered 0 chunks
      → document_at (repo_label source) file.path state.0.documents ≡ some id
      → ((j : ℕ) → hash_at id j state.0.chunks ≡ hash_in j chunks)
      → ((store_chunks reader phrases patterns source file title metadata chunks state).0.chunks
          ≡ state.0.chunks)
        × ((store_chunks reader phrases patterns source file title metadata chunks
              state).1.chunks_created
            ≡ state.1.chunks_created)
        × ((store_chunks reader phrases patterns source file title metadata chunks
              state).1.chunks_unchanged
            ≡ length chunks + state.1.chunks_unchanged)
  stored_settled title metadata chunks (db, s, touched) id numbered there agrees =
      let row = document_row reader phrases patterns source file title metadata db.next_id in
      let (prepared, doc) = with_document row db in
      let same_document = upsert_document-document_at row db.documents id there in
      let settled =
        replace_again reader phrases patterns doc chunks prepared s numbered
          (λ j. ap (λ (i : ℕ). hash_at i j db.chunks) same_document ∙ agrees j) in
      (
        ap (λ (r : Database × IngestionSummary). r.0.chunks) settled,
        ap (λ (r : Database × IngestionSummary). r.1.chunks_created) settled,
        ap (λ (r : Database × IngestionSummary). r.1.chunks_unchanged) settled,
      )

-- After a file whose text parses to chunks numbered from 0 and a title that is a text or absent
-- was processed over a table of chunks with distinct identifiers below the next one, processing it
-- once more gives a state, changes no chunk and creates none, and counts every parsed chunk as
-- unchanged.
pub process_file_again :
    (reader : Reader) (phrases patterns : List Text) (source : Source) (file : FetchedFile)
    (content : Text) (title : Value) (name : Text) (metadata : Metadata) (c : Chunk)
    (cs : List Chunk) (before once : State)
    → file.content ≡ some content
    → reader.parse content ≡ parsed title metadata (c ∷ cs)
    → or_path title file.path ≡ some name
    → IsNumbered 0 (c ∷ cs)
    → IsTable before.0.next_id before.0.chunks
    → process_file reader phrases patterns source file before ≡ some once
    → (after : State) × (process_file reader phrases patterns source file once ≡ some after)
      × (after.0.chunks ≡ once.0.chunks)
      × (after.1.chunks_created ≡ once.1.chunks_created)
      × (after.1.chunks_unchanged ≡ length (c ∷ cs) + once.1.chunks_unchanged)
process_file_again reader phrases patterns source file content title name metadata c cs before once
      h p t numbered table e =
    let stored = store_chunks reader phrases patterns source file name metadata (c ∷ cs) before in
    let ran =
      processed reader phrases patterns source file content title name metadata c cs before h p t in
    let same_state : stored ≡ once = some_inj (sym ran ∙ e) in
    let is_once =
      subst
        (λ (after : State).
          IsStored reader phrases patterns (repo_label source) file.path (c ∷ cs) before.0 after.0)
        same_state
        (store_chunks-IsStored reader phrases patterns source file name metadata (c ∷ cs) before
          numbered table) in
    let settled =
      stored_settled reader phrases patterns source file name metadata (c ∷ cs) once
        is_once.document_id numbered is_once.document is_once.its_chunks in
    (
      store_chunks reader phrases patterns source file name metadata (c ∷ cs) once,
      processed reader phrases patterns source file content title name metadata c cs once h p t,
      settled.0,
      settled.1,
      settled.2,
    )
