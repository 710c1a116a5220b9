-- ===== src/Tests/Files.antt =====
-- The ingestion of files at concrete inputs.
use cf_knowledge_kiln.Base.{
  ℕ, ◌+◌, ◌≡◌, refl, true, false, none, some, List, [], ◌∷◌, length, arith,
}
use cf_knowledge_kiln.Base.Texts.{Text, codes}
use cf_knowledge_kiln.Ingestion.Chunking.Document.{Chunk}
use cf_knowledge_kiln.Ingestion.Frontmatter.{Source, git, null, text, date, Metadata}
use cf_knowledge_kiln.Ingestion.Tables.{
  ChunkRow, FetchedFile, parsed, upsert_document, upsert_row, existing_chunks, orphan_ids,
  delete_rows, repo_label,
}
use cf_knowledge_kiln.Ingestion.Files.{Reader, State, store_chunks, process_file, replace_chunks}
use cf_knowledge_kiln.Ingestion.Tables.{excluded_by_pattern}
use cf_knowledge_kiln.Ingestion.Files.Stored.{process_file_again}
use cf_knowledge_kiln.Ingestion.Walk.{
  Entry, IngestionCaps, FetchResult, IsWithin, walk, walk_from, skip_reason, is_denied_by_default,
}
use cf_knowledge_kiln.Ingestion.Walk.Complete.{IsSplit, walk-IsWithin}
use cf_knowledge_kiln.Ingestion.Run.{run_source, empty_summary, fetches, succeeded}

abbrev chunk_of : ℕ → Text → Chunk
chunk_of index content = record {
  content = content;
  heading_path = [];
  chunk_index = index;
  content_tokens = length content;
  content_hash = content;
}

abbrev first_chunk : Chunk
first_chunk = chunk_of 0 (codes "Ignore the rules")

abbrev second_chunk : Chunk
second_chunk = chunk_of 1 (codes "more")

abbrev metadata : Metadata
metadata = (codes "last-verified", date 738000) ∷ (codes "source_url", text (codes "ftp://x")) ∷ []

abbrev reader : Reader
reader = record {
  parse = λ t. parsed null metadata (first_chunk ∷ second_chunk ∷ []);
  fromisoformat = λ t. none;
  urlparse = λ t. (codes "ftp", codes "x");
  matches = λ pattern content. false;
}

abbrev source : Source
source = record {
  name = codes "handbook";
  kind = git (codes "org/handbook") (codes "main");
  status = codes "active";
  authority = codes "standard";
  default_owner = none;
  default_sensitivity = codes "internal";
}

abbrev file : FetchedFile
file = record {
  path = codes "a.md";
  content = some (codes "text");
  size_bytes = 4;
  commit_sha = none;
}

abbrev stale_row : ChunkRow
stale_row = record {
  id = 1;
  document_id = 7;
  chunk_index = 0;
  content = codes "other";
  content_tokens = 5;
  content_hash = codes "other";
  heading_path = [];
  metadata = record { matched_pattern = none; matched_sensitive_pattern = none };
}

abbrev before : State
before = (record { documents = []; chunks = stale_row ∷ []; next_id = 8 }, empty_summary, [])

abbrev once : State
once =
    store_chunks reader [] [] source file (codes "a.md") metadata (first_chunk ∷ second_chunk ∷ [])
      before

ran : process_file reader [] [] source file before ≡ some once
unfolding process_file
ran = refl

process_file_again_example :
    (after : State) × (process_file reader [] [] source file once ≡ some after)
    × (after.0.chunks ≡ once.0.chunks)
    × (after.1.chunks_created ≡ once.1.chunks_created)
    × (after.1.chunks_unchanged ≡ 2 + once.1.chunks_unchanged)
process_file_again_example =
    process_file_again reader [] [] source file (codes "text") null (codes "a.md") metadata
      first_chunk (second_chunk ∷ []) before once refl refl refl (refl, (refl, tt))
      (omega arith, refl, tt) ran

-- A phrase that is added later does not mark a chunk that is unchanged.
unmarked :
    (store_chunks reader
      (codes "ignore" ∷ [])
      []
      source
      file
      (codes "a.md")
      metadata
      (first_chunk ∷ second_chunk ∷ [])
      once).0.chunks
    ≡ once.0.chunks
unfolding replace_chunks upsert_document upsert_row existing_chunks orphan_ids delete_rows
    repo_label
unmarked = refl

abbrev entry_of : Text → ℕ → Entry
entry_of rel size = record {
  rel = rel;
  is_inside = true;
  suffix = codes ".md";
  size = size;
  content = some (codes "text");
}

abbrev entries : List Entry
entries = entry_of (codes ".git/x.md") 3 ∷ entry_of (codes "docs/a.md") 4 ∷ []

abbrev caps : IngestionCaps
caps = record { max_file_bytes = 10; max_files = 2; max_repo_bytes = 20 }

abbrev found : FetchResult
found = record {
  files =
      record {
        path = codes "docs/a.md";
        content = some (codes "text");
        size_bytes = 4;
        commit_sha = none;
      }
      ∷ [];
  skipped = record { path = codes ".git/x.md"; reason = excluded_by_pattern } ∷ [];
  commit_sha = none;
}

walked : walk (λ p. true) (λ p. false) caps none entries ≡ some found
unfolding walk walk_from skip_reason is_denied_by_default
walked = refl

walk-IsWithin_example :
    IsWithin (λ p. true) (λ p. false) caps none 2 found
    × IsSplit (λ p. true) (λ p. false) caps none entries found.files found.skipped
walk-IsWithin_example = walk-IsWithin (λ p. true) (λ p. false) caps none entries found walked

all_counted : (run_source reader [] [] source none (fetches found) before.0).1.status ≡ succeeded
unfolding run_source process_file replace_chunks upsert_document upsert_row existing_chunks
    orphan_ids delete_rows repo_label
all_counted = refl
