-- ===== src/Ingestion/Tables.antt =====
-- The tables of documents and chunks, the fetched files and the summary of a run, with the two
-- scanners: src/cf_knowledge_kiln/ingestion/_file_processing.py (its statements), _summary.py,
-- prompt_injection.py and sensitive_content.py. A UUID is a number that the database draws afresh.
use cf_knowledge_kiln.Base.{
  ℕ, suc, ◌==◌, Bool, false, not, ◌&&◌, Option, none, some, List, [], ◌∷◌, any, keep, if◌then◌else◌,
}
use cf_knowledge_kiln.Base.Texts.{Text, same, lower, is_empty, contains}
use cf_knowledge_kiln.Ingestion.Chunking.Document.{Chunk}
use cf_knowledge_kiln.Ingestion.Frontmatter.{
  Metadata, Value, null, text, date, other, Source, SourceKind, git, local, http, Defaults,
}

-- A row of `document_chunks`; the marks of its metadata are the patterns that matched.
pub record Marks : Type 0 where
  pub matched_pattern : Option Text
  pub matched_sensitive_pattern : Option Text

pub record ChunkRow : Type 0 where
  pub id : ℕ
  pub document_id : ℕ
  pub chunk_index : ℕ
  pub content : Text
  pub content_tokens : ℕ
  pub content_hash : Text
  pub heading_path : List Text
  pub metadata : Marks

pub record DocumentRow : Type 0 where
  pub id : ℕ
  pub repo : Text
  pub path : Text
  pub title : Text
  pub metadata : Metadata
  pub commit_sha : Option Text
  pub defaults : Defaults

pub record Database : Type 0 where
  pub documents : List DocumentRow
  pub chunks : List ChunkRow
  pub next_id : ℕ

-- A fetched file; its content is the text that its bytes decode to, where they are UTF-8.
pub record FetchedFile : Type 0 where
  pub path : Text
  pub content : Option Text
  pub size_bytes : ℕ
  pub commit_sha : Option Text

pub data SkipReason : Type 0 where
  binary_content frontmatter_too_large excluded_by_pattern symlink_escape : SkipReason
  unsupported_file_type too_large : SkipReason

-- An entry of the errors or the warnings of a run.
pub data Note : Type 0 where
  not_utf8 : Text → Note
  oversized_frontmatter : Text → Note
  no_chunks : Text → Note
  cap_exceeded : Note
  embedding_failed : Note

pub record IngestionSummary : Type 0 where
  pub files_scanned : ℕ
  pub files_indexed : ℕ
  pub files_skipped : ℕ
  pub chunks_created : ℕ
  pub chunks_unchanged : ℕ
  pub chunks_with_prompt_injection : ℕ
  pub chunks_with_sensitive_content : ℕ
  pub warnings : List Note
  pub errors : List Note
  -- the counted reasons, in the order of the counting
  pub skip_reasons : List SkipReason

-- What `parse_document` makes of a text.
pub data Parsed : Type 0 where
  front_too_large : Parsed
  -- the frontmatter is no YAML: the parser raises
  malformed : Parsed
  parsed : Value → Metadata → List Chunk → Parsed

-- `scan` of the two scanners: the first phrase or pattern that matches.
abbrev pub scan_phrases : Text → List Text → Option Text
scan_phrases normalized [] = none
scan_phrases normalized (phrase ∷ phrases) =
    let rest = scan_phrases normalized phrases in
    if contains (lower phrase) normalized then some phrase else rest

unfoldable pub scan_prompt_injection : Text → List Text → Option Text
scan_prompt_injection content phrases =
    if is_empty content then none else scan_phrases (lower content) phrases

abbrev pub scan_patterns : (Text → Text → Bool) → Text → List Text → Option Text
scan_patterns matches content [] = none
scan_patterns matches content (pattern ∷ patterns) =
    let rest = scan_patterns matches content patterns in
    if matches pattern content then some pattern else rest

unfoldable pub scan_sensitive_content : (Text → Text → Bool) → Text → List Text → Option Text
scan_sensitive_content matches content patterns =
    if is_empty content then none else scan_patterns matches content patterns

abbrev pub tally : Option Text → ℕ → ℕ
tally none n = n
tally (some t) n = suc n

-- `parsed.title or file.path`; `none` is a title that is no text, which the statement refuses.
abbrev pub or_path : Value → Text → Option Text
or_path null path = some path
or_path (text []) path = some path
or_path (text (c ∷ cs)) path = some (c ∷ cs)
or_path (date d) path = none
or_path (other truth shown) path = if truth then none else some path

-- `_repo_label`
abbrev pub label_of : SourceKind → Text → Text
label_of (git [] branch) name = name
label_of (git (c ∷ cs) branch) name = c ∷ cs
label_of (local path) name = name
label_of (http urls hosts plain) name = name

unfoldable pub repo_label : Source → Text
repo_label source = label_of source.kind source.name

-- `INSERT ... ON CONFLICT (repo, path) DO UPDATE`: the rows, and the identifier of the row.
unfoldable pub upsert_document : DocumentRow → List DocumentRow → List DocumentRow × ℕ
upsert_document new [] = (new ∷ [], new.id)
upsert_document new (row ∷ rows) =
    let (rest, found) = upsert_document new rows in
    if same row.repo new.repo && same row.path new.path
    then (record new { id = row.id } ∷ rows, row.id)
    else (row ∷ rest, found)

-- `INSERT ... ON CONFLICT (document_id, chunk_index) DO UPDATE`
unfoldable pub upsert_row : ChunkRow → List ChunkRow → List ChunkRow
upsert_row new [] = new ∷ []
upsert_row new (row ∷ rows) =
    let rest = upsert_row new rows in
    if (row.document_id == new.document_id) && (row.chunk_index == new.chunk_index)
    then record new { id = row.id } ∷ rows
    else row ∷ rest

-- `_existing_chunks_by_index`: the identifiers and hashes of a document's chunks, by index.
unfoldable pub existing_chunks : ℕ → List ChunkRow → List (ℕ × ℕ × Text)
existing_chunks doc [] = []
existing_chunks doc (row ∷ rows) =
    let rest = existing_chunks doc rows in
    if row.document_id == doc then (row.chunk_index, row.id, row.content_hash) ∷ rest else rest

abbrev pub find_existing : ℕ → List (ℕ × ℕ × Text) → Option Text
find_existing index [] = none
find_existing index ((i, id, hash) ∷ rest) =
    if i == index then some hash else find_existing index rest

abbrev pub has_hash : Option Text → Text → Bool
has_hash none hash = false
has_hash (some h) hash = same h hash

abbrev pub is_seen : List Chunk → ℕ → Bool
is_seen chunks index = any (λ c. c.chunk_index == index) chunks

unfoldable pub orphan_ids : List (ℕ × ℕ × Text) → List Chunk → List ℕ
orphan_ids [] chunks = []
orphan_ids ((i, id, hash) ∷ rest) chunks =
    let ids = orphan_ids rest chunks in if is_seen chunks i then ids else id ∷ ids

abbrev pub has_id : ℕ → List ℕ → Bool
has_id id ids = any (λ i. i == id) ids

unfoldable pub delete_rows : List ℕ → List ChunkRow → List ChunkRow
delete_rows ids rows = keep (λ r. not (has_id r.id ids)) rows
