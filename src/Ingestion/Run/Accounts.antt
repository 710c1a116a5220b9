-- ===== src/Ingestion/Run/Accounts.antt =====
-- What the row of a run says of it: `run_source` of src/cf_knowledge_kiln/ingestion/pipeline.py.
use cf_knowledge_kiln.Base.{
  ℕ, ◌+◌, Option, none, some, List, [], ◌∷◌, ◌≡◌, ◌∙◌, ◌↔◌, ◌⊎◌, IsAmong, arith,
}
use cf_knowledge_kiln.Base.Texts.{Text}
use cf_knowledge_kiln.Ingestion.Chunking.Document.{Chunk}
use cf_knowledge_kiln.Ingestion.Frontmatter.{Source, Value, Metadata}
use cf_knowledge_kiln.Ingestion.Tables.{IngestionSummary, FetchedFile, parsed, malformed, or_path}
use cf_knowledge_kiln.Ingestion.Files.{Reader, State}
use cf_knowledge_kiln.Ingestion.Run.{
  succeeded, IngestionRun, Fetch, fetches, over_caps, fetch_raised,
}

-- The second summary counts so many more files as indexed or skipped, and scans no more.
abbrev Counts : IngestionSummary → ℕ → IngestionSummary → Type 0
Counts s n t =
    (t.files_scanned ≡ s.files_scanned)
    × (t.files_indexed + t.files_skipped ≡ s.files_indexed + s.files_skipped + n)

Counts-trans :
    (s t u : IngestionSummary) (m n : ℕ) → Counts s m t → Counts t n u → Counts s (m + n) u
Counts-trans s t u m n h k = (k.0 ∙ h.0, omega (arith, h.1, k.1))

-- What a run's row says of it: each scanned file was indexed or skipped, and it succeeded exactly
-- if nothing went wrong.
pub record IsAccounted (run : IngestionRun) : Type 0 where
  pub files : run.stats.files_scanned ≡ run.stats.files_indexed + run.stats.files_skipped
  pub clean : (run.status ≡ succeeded) ↔ (run.stats.errors ≡ [])

module _ (reader : Reader) (phrases patterns : List Text) (source : Source) where
  abbrev AllCount : ℕ → IngestionSummary → Option State → Type 0
  AllCount n s none = Unit
  AllCount n s (some state) = Counts s n state.1

  -- A text of the file that the parser refuses, or whose title the tables refuse.
  abbrev pub IsRefused : FetchedFile → Type 0
  IsRefused f =
      (content : Text) × (f.content ≡ some content)
      × ((reader.parse content ≡ malformed)
          ⊎ ((title : Value) × (metadata : Metadata) × (c : Chunk) × (cs : List Chunk)
              × (reader.parse content ≡ parsed title metadata (c ∷ cs))
              × (or_path title f.path ≡ none)))

  -- Why a run is left as it was started: an exception escaped.
  abbrev pub IsInterrupted : Fetch → Type 0
  IsInterrupted (fetches r) = (f : FetchedFile) × IsAmong f r.files × IsRefused f
  IsInterrupted over_caps = ⊥
  IsInterrupted fetch_raised = Unit
