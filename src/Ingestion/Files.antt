-- ===== src/Ingestion/Files.antt =====
-- One fetched file: src/cf_knowledge_kiln/ingestion/_file_processing.py over the tables.
use cf_knowledge_kiln.Base.{ℕ, suc, Bool, Option, none, some, List, [], ◌∷◌, ◌++◌, if◌then◌else◌}
use cf_knowledge_kiln.Base.Texts.{Text}
use cf_knowledge_kiln.Ingestion.Chunking.Document.{Chunk}
use cf_knowledge_kiln.Ingestion.Frontmatter.{Metadata, Source, resolve_doc_defaults}
use cf_knowledge_kiln.Ingestion.Tables.{
  ChunkRow, Database, DocumentRow, FetchedFile, IngestionSummary, Marks, Note, Parsed, SkipReason,
  binary_content, delete_rows, existing_chunks, find_existing, front_too_large, malformed,
  frontmatter_too_large, has_hash, no_chunks, not_utf8, or_path, orphan_ids, oversized_frontmatter,
  parsed, repo_label, scan_prompt_injection, scan_sensitive_content, tally, upsert_document,
  upsert_row,
}
pub mod Rows
pub mod Convergence
pub mod Again
pub mod Contents
pub mod Stored

-- The parser, the date and URL readers and the regular expressions are the caller's.
pub record Reader : Type 0 where
  pub parse : Text → Parsed
  pub fromisoformat : Text → Option ℕ
  pub urlparse : Text → Text × Text
  pub matches : Text → Text → Bool

abbrev pub count_marks : Marks → IngestionSummary → IngestionSummary
count_marks marks s = record s {
  chunks_with_prompt_injection = tally marks.matched_pattern s.chunks_with_prompt_injection;
  chunks_with_sensitive_content =
      tally marks.matched_sensitive_pattern s.chunks_with_sensitive_content;
  chunks_created = suc s.chunks_created;
}

abbrev pub keep_chunk : Database × IngestionSummary → Database × IngestionSummary
keep_chunk (db, s) = (db, record s { chunks_unchanged = suc s.chunks_unchanged })

abbrev pub delete_orphans : List ℕ → Database × IngestionSummary → Database × IngestionSummary
delete_orphans ids (db, s) = (
  record db { chunks = delete_rows ids db.chunks },
  record s { files_indexed = suc s.files_indexed },
)

abbrev pub skip_file : SkipReason → Note → IngestionSummary → IngestionSummary
skip_file reason note s = record s {
  errors = s.errors ++ note ∷ [];
  files_skipped = suc s.files_skipped;
  skip_reasons = s.skip_reasons ++ reason ∷ [];
}

abbrev pub skip_empty : Text → IngestionSummary → IngestionSummary
skip_empty path s = record s {
  warnings = s.warnings ++ no_chunks path ∷ [];
  files_skipped = suc s.files_skipped;
}

-- The database after the document's upsert, and the identifier of its row.
abbrev pub with_document : DocumentRow → Database → Database × ℕ
with_document row db =
    let (rows, doc) = upsert_document row db.documents in
    (record db { documents = rows; next_id = suc db.next_id }, doc)

-- The database, the summary and the touched documents.
abbrev pub State : Type 0
State = Database × IngestionSummary × List ℕ

module _ (reader : Reader) (phrases patterns : List Text) where
  -- `_chunk_security_metadata`
  unfoldable pub security_metadata : Text → Marks
  unfolding scan_prompt_injection scan_sensitive_content
  security_metadata content = record {
    matched_pattern = scan_prompt_injection content phrases;
    matched_sensitive_pattern = scan_sensitive_content reader.matches content patterns;
  }

  unfoldable pub chunk_row : ℕ → ℕ → Chunk → ChunkRow
  unfolding security_metadata
  chunk_row id doc c = record {
    id = id;
    document_id = doc;
    chunk_index = c.chunk_index;
    content = c.content;
    content_tokens = c.content_tokens;
    content_hash = c.content_hash;
    heading_path = c.heading_path;
    metadata = security_metadata c.content;
  }

  -- `_upsert_chunk`
  abbrev pub upsert_chunk : ℕ → Chunk → Database × IngestionSummary → Database × IngestionSummary
  upsert_chunk doc c (db, s) = (
    record db {
      chunks = upsert_row (chunk_row db.next_id doc c) db.chunks;
      next_id = suc db.next_id;
    },
    count_marks (security_metadata c.content) s,
  )

  -- The loop over the parsed chunks, and its body.
  abbrev pub write_chunk :
      ℕ → List (ℕ × ℕ × Text) → Chunk → Database × IngestionSummary → Database × IngestionSummary
  write_chunk doc existing c state =
      if has_hash (find_existing c.chunk_index existing) c.content_hash
      then keep_chunk state
      else upsert_chunk doc c state

  abbrev pub write_chunks :
      ℕ
      → List (ℕ × ℕ × Text)
      → List Chunk
      → Database × IngestionSummary
      → Database × IngestionSummary
  write_chunks doc existing [] state = state
  write_chunks doc existing (c ∷ cs) state =
      write_chunks doc existing cs (write_chunk doc existing c state)

  -- The document's row is there: its chunks follow.
  unfoldable pub replace_chunks :
      ℕ → List Chunk → Database × IngestionSummary → Database × IngestionSummary
  unfolding existing_chunks orphan_ids delete_rows upsert_row chunk_row
  replace_chunks doc chunks (db, s) =
      let existing = existing_chunks doc db.chunks in
      delete_orphans (orphan_ids existing chunks) (write_chunks doc existing chunks (db, s))

  abbrev pub document_row : Source → FetchedFile → Text → Metadata → ℕ → DocumentRow
  document_row source file title metadata id = record {
    id = id;
    repo = repo_label source;
    path = file.path;
    title = title;
    metadata = metadata;
    commit_sha = file.commit_sha;
    defaults = resolve_doc_defaults reader.fromisoformat reader.urlparse metadata source;
  }

  -- The statements for a file with chunks.
  abbrev pub store_chunks : Source → FetchedFile → Text → Metadata → List Chunk → State → State
  store_chunks source file title metadata chunks (db, s, touched) =
      let (stored, doc) = with_document (document_row source file title metadata db.next_id) db in
      let (db2, s2) = replace_chunks doc chunks (stored, s) in (db2, s2, doc ∷ touched)

  abbrev pub store_titled :
      Source → FetchedFile → Option Text → Metadata → List Chunk → State → Option State
  store_titled source file none metadata chunks state = none
  store_titled source file (some title) metadata chunks state =
      some (store_chunks source file title metadata chunks state)

  -- `none` where the parser or a statement raises.
  abbrev pub store_parsed : Source → FetchedFile → Parsed → State → Option State
  store_parsed source file front_too_large (db, s, touched) =
      some (db, skip_file frontmatter_too_large (oversized_frontmatter file.path) s, touched)
  store_parsed source file malformed state = none
  store_parsed source file (parsed title metadata []) (db, s, touched) =
      some (db, skip_empty file.path s, touched)
  store_parsed source file (parsed title metadata (c ∷ cs)) state =
      store_titled source file (or_path title file.path) metadata (c ∷ cs) state

  abbrev pub decode_file : Source → FetchedFile → Option Text → State → Option State
  decode_file source file none (db, s, touched) =
      some (db, skip_file binary_content (not_utf8 file.path) s, touched)
  decode_file source file (some content) state =
      store_parsed source file (reader.parse content) state

  -- `_process_file`
  unfoldable pub process_file : Source → FetchedFile → State → Option State
  unfolding replace_chunks upsert_document repo_label resolve_doc_defaults
  process_file source file state = decode_file source file file.content state
