-- ===== src/Ingestion/Run.antt =====
-- A run over one source: `run_source` of src/cf_knowledge_kiln/ingestion/pipeline.py, with the
-- summary of ingestion/_summary.py.
use cf_knowledge_kiln.Base.{
  ℕ, suc, ◌+◌, Bool, true, false, Option, none, some, List, [], ◌∷◌, ◌++◌, length, if◌then◌else◌,
}
use cf_knowledge_kiln.Base.Texts.{Text}
use cf_knowledge_kiln.Ingestion.Frontmatter.{Source}
use cf_knowledge_kiln.Ingestion.Tables.{
  Database, IngestionSummary, FetchedFile, Note, cap_exceeded, embedding_failed,
}
use cf_knowledge_kiln.Ingestion.Files.{Reader, State, process_file}
use cf_knowledge_kiln.Ingestion.Walk.{FetchResult, SkippedFile}
pub mod Accounts

abbrev pub empty_summary : IngestionSummary
empty_summary = record {
  files_scanned = 0;
  files_indexed = 0;
  files_skipped = 0;
  chunks_created = 0;
  chunks_unchanged = 0;
  chunks_with_prompt_injection = 0;
  chunks_with_sensitive_content = 0;
  warnings = [];
  errors = [];
  skip_reasons = [];
}

pub data RunStatus : Type 0 where
  running succeeded partial failed : RunStatus

-- A row of `ingestion_runs`, less its times.
pub record IngestionRun : Type 0 where
  pub status : RunStatus
  pub stats : IngestionSummary
  pub commit_sha : Option Text

-- The row as it is committed before the fetch.
abbrev pub started : IngestionRun
started = record { status = running; stats = empty_summary; commit_sha = none }

-- What the connector gives: files, IngestionCapExceeded, or any other exception.
pub data Fetch : Type 0 where
  fetches : FetchResult → Fetch
  over_caps fetch_raised : Fetch

abbrev pub is_clean : List Note → Bool
is_clean [] = true
is_clean (e ∷ errors) = false

-- `files_scanned`, and the files that the connector passed over.
abbrev pub count_skipped : List SkippedFile → IngestionSummary → IngestionSummary
count_skipped [] s = s
count_skipped (f ∷ fs) s = count_skipped fs (record s {
  files_skipped = suc s.files_skipped;
  skip_reasons = s.skip_reasons ++ f.reason ∷ [];
})

-- The embedding pass: the errors that it records, and whether it raises at its end.
abbrev pub Embedder : Type 0
Embedder = List ℕ → Database → List Note × Bool

abbrev pub embed : Option Embedder → State → State
embed none state = state
embed (some provider) (db, s, touched) =
    let (notes, raised) = provider touched db in
    (
      db,
      record s { errors = s.errors ++ (notes ++ (if raised then embedding_failed ∷ [] else [])) },
      touched,
    )

module _ (reader : Reader) (phrases patterns : List Text) (source : Source) where
  abbrev pub then_files : (State → Option State) → Option State → Option State
  then_files rest none = none
  then_files rest (some state) = rest state

  abbrev pub process_files : List FetchedFile → State → Option State
  process_files [] state = some state
  process_files (f ∷ fs) state =
      then_files (process_files fs) (process_file reader phrases patterns source f state)

  abbrev pub finish_run : Option Text → State → Database × IngestionRun
  finish_run commit_sha (db, s, touched) = (
    db,
    record {
      status = if is_clean s.errors then succeeded else partial;
      stats = s;
      commit_sha = commit_sha;
    },
  )

  -- Where an exception escapes, nothing after the row of the run was committed.
  abbrev pub finish_files :
      Option Embedder → Option Text → Database → Option State → Database × IngestionRun
  finish_files provider commit_sha db none = (db, started)
  finish_files provider commit_sha db (some state) = finish_run commit_sha (embed provider state)

  abbrev pub ingest : Option Embedder → FetchResult → Database → Database × IngestionRun
  ingest provider fetch db =
      let counted =
        count_skipped fetch.skipped
          (record empty_summary { files_scanned = length fetch.files + length fetch.skipped }) in
      finish_files provider fetch.commit_sha db (process_files fetch.files (db, counted, []))

  -- `run_source`: the tables, and the row of the run, that it leaves.
  unfoldable pub run_source : Option Embedder → Fetch → Database → Database × IngestionRun
  unfolding process_file
  run_source provider over_caps db = (
    db,
    record {
      status = failed;
      stats = record empty_summary { errors = cap_exceeded ∷ [] };
      commit_sha = none;
    },
  )
  run_source provider fetch_raised db = (db, started)
  run_source provider (fetches fetch) db = ingest provider fetch db
