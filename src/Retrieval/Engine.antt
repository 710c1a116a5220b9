-- ===== src/Retrieval/Engine.antt =====
-- The stages of a search and of a context pack: src/cf_knowledge_kiln/retrieval/engine.py and
-- retrieval/context_pack.py, with the helpers of retrieval/_engine_helpers.py and the normalization
-- of retrieval/query_normalization.py. The search in the database is a parameter.
pub mod Pack
pub mod Answering
pub mod Order
pub mod Cited
use cf_knowledge_kiln.Base.{
  ℕ, ◌==◌, Bool, true, false, ◌&&◌, Option, none, some, List, [], ◌∷◌, ◌++◌, map, any, keep, take,
  if◌then◌else◌, ◌≡◌, refl, ap,
}
use cf_knowledge_kiln.Base.Host.{Host}
use cf_knowledge_kiln.Base.Texts.{Text, strip, is_empty}
use cf_knowledge_kiln.Retrieval.Config.{RetrievalConfig, effective_relevance_floor}
use cf_knowledge_kiln.Retrieval.Ranking.Boosts.{apply_boosts}
use cf_knowledge_kiln.Retrieval.Ranking.Chunk.{RankedChunk}
use cf_knowledge_kiln.Retrieval.Ranking.Emitters.{query_normalized_warning}
use cf_knowledge_kiln.Retrieval.Ranking.Review.{collect_warnings}
use cf_knowledge_kiln.Retrieval.Types.{Status, Warning}
use cf_knowledge_kiln.Agent.ContextPack.Shapes.{DocumentRef}
use Prim.Native.String.{String}

-- What a search may raise.
pub data Failure : Type 0 where
  empty_query only_markers empty_task fetch_failed date_overflow assembly_failed : Failure
  generator_failed : Failure

-- A computation of the retriever: what it gives, or what it raises.
pub data Attempt (A : Type 0) : Type 0 where
  raises : Failure → Attempt A
  gives : A → Attempt A

infixl 5 ◌>>=◌
abbrev pub ◌>>=◌ : {A B : Type 0} → Attempt A → (A → Attempt B) → Attempt B
raises failure >>= next = raises failure
gives x >>= next = next x

pub gives_inj : {A : Type 0} {x y : A} → gives x ≡ gives y → x ≡ y
gives_inj same = cc

-- Both steps of a chain that ends well have ended well.
pub >>=-eq-gives :
    {A B : Type 0} (first : Attempt A) (next : A → Attempt B) {y : B}
    → (first >>= next) ≡ gives y
    → (x : A) × (first ≡ gives x) × (next x ≡ gives y)
>>=-eq-gives (raises failure) next ended = cc
>>=-eq-gives (gives x) next ended = (x, refl, ended)

abbrev pub or_err : {A : Type 0} → Option A → Failure → Attempt A
or_err none e = raises e
or_err (some a) e = gives a

abbrev pub refuse_if : Bool → Failure → Attempt (Unit {0})
refuse_if true e = raises e
refuse_if false e = gives tt

pub or_err-eq-gives :
    {A : Type 0} (o : Option A) (e : Failure) {a : A} → or_err o e ≡ gives a → o ≡ some a
or_err-eq-gives none e h = cc
or_err-eq-gives (some x) e h = ap some (gives_inj h)

module _ (H : Host) where
  open H use {Num, lt, Json}

  pub record SearchRow : Type 0 where
    pub chunk_id : ℕ
    pub document_id : ℕ
    pub content : String
    pub heading_path : List String
    pub chunk_metadata : List (String × Json)
    pub status : Status
    pub authority : Option String
    pub owner : Option String
    pub last_reviewed : Option ℕ
    pub commit_sha : Option String
    pub repo : String
    pub path : String
    pub title : String
    pub source_url : Option String
    pub score : Num
    pub has_prompt_injection : Bool
    pub has_sensitive_content : Bool
    pub chunk_index : ℕ
    pub chunk_count : ℕ

  abbrev pub row_to_ranked_chunk : SearchRow → RankedChunk H
  row_to_ranked_chunk row = record {
    chunk_id = row.chunk_id;
    document_id = row.document_id;
    score = row.score;
    status = row.status;
    heading_path = row.heading_path;
    authority = row.authority;
    last_reviewed = row.last_reviewed;
    has_prompt_injection = row.has_prompt_injection;
    has_sensitive_content = row.has_sensitive_content;
    chunk_metadata = row.chunk_metadata;
    chunk_index = row.chunk_index;
    chunk_count = row.chunk_count;
  }

  abbrev pub ref_of_row : SearchRow → DocumentRef
  ref_of_row row = record {
    document_id = row.document_id;
    title = row.title;
    repo = some row.repo;
    path = some row.path;
    source_url = row.source_url;
    commit_sha = row.commit_sha;
    authority = row.authority;
    owner = row.owner;
  }

  abbrev pub is_one_of : ℕ → List ℕ → Bool
  is_one_of id ids = any (λ i. i == id) ids

  -- `document_refs_from_rows`: the first row of a document gives its reference.
  unfoldable pub refs_from : List ℕ → List SearchRow → List (ℕ × DocumentRef)
  refs_from seen [] = []
  refs_from seen (row ∷ rows) =
      if is_one_of row.document_id seen
      then refs_from seen rows
      else (row.document_id, ref_of_row row) ∷ refs_from (row.document_id ∷ seen) rows

  abbrev pub document_refs_from_rows : List SearchRow → List (ℕ × DocumentRef)
  document_refs_from_rows rows = refs_from [] rows

  -- The contents of the rows that were kept; a result has a chunk once.
  abbrev pub texts_of : List SearchRow → List ℕ → List (ℕ × String)
  texts_of rows ids =
      map (λ (r : SearchRow). (r.chunk_id, r.content)) (keep (λ r. is_one_of r.chunk_id ids) rows)

  -- `list.sort(key=score, reverse=True)`: a chunk goes before those that score no more.
  unfoldable pub insert_scored : RankedChunk H → List (RankedChunk H) → List (RankedChunk H)
  insert_scored c [] = c ∷ []
  insert_scored c (d ∷ ds) =
      let rest = insert_scored c ds in if lt c.score d.score then d ∷ rest else c ∷ d ∷ ds

  unfoldable pub sort_scored : List (RankedChunk H) → List (RankedChunk H)
  unfolding insert_scored
  sort_scored [] = []
  sort_scored (c ∷ cs) = insert_scored c (sort_scored cs)

  -- `pattern.subn("", text)` of a phrase's pattern: the text that is left, and whether any matched;
  -- and `re.sub(r"\s+", " ", text)`.
  pub record Patterns : Type 0 where
    pub remove : String → Text → Text × Bool
    pub collapse : Text → Text

  abbrev pub strip_phrases : Patterns → Text → List String → Text × List String
  strip_phrases p cleaned [] = (cleaned, [])
  strip_phrases p cleaned (phrase ∷ phrases) =
      let (left, found) = p.remove phrase cleaned in
      let (last, removed) = strip_phrases p (if found then left else cleaned) phrases in
      (last, if found then phrase ∷ removed else removed)

  -- `normalize_query`
  unfoldable pub normalize_query : Patterns → Text → List String → Text × List String
  normalize_query p raw [] = (raw, [])
  normalize_query p raw (phrase ∷ phrases) =
      let (cleaned, removed) = strip_phrases p raw (phrase ∷ phrases) in
      if is_empty raw then (raw, []) else (strip (p.collapse cleaned), removed)

  abbrev pub has_any : List String → Bool
  has_any [] = false
  has_any (x ∷ xs) = true

  -- The retriever: its configuration and phrases, the day, and the database's answer to a query
  -- (`none` where it raises).
  pub record Retriever : Type 0 where
    pub config : RetrievalConfig H
    pub phrases : List String
    pub patterns : Patterns
    pub today : ℕ
    pub fetch : Text → Option (List SearchRow)

  pub record SearchResult : Type 0 where
    pub chunks : List (RankedChunk H)
    pub warnings : List (Warning H)
    pub document_refs : List (ℕ × DocumentRef)
    pub chunk_text : List (ℕ × String)

  module _ (r : Retriever) where
    -- The query that is searched for, and the phrases that were taken out of it.
    unfoldable pub effective_query : Text → Attempt (Text × List String)
    unfolding normalize_query
    effective_query query = do
      _ ← refuse_if (is_empty (strip query)) empty_query
      let (cleaned, removed) = normalize_query r.patterns query r.phrases
      _ ← refuse_if (has_any removed && is_empty cleaned) only_markers
      gives ((if has_any removed then cleaned else query), removed)

    -- The best of the rows after the boosts.
    unfoldable pub rank : List SearchRow → ℕ → List (RankedChunk H)
    unfolding apply_boosts sort_scored
    rank rows limit =
        take limit (sort_scored (apply_boosts H r.config r.today (map row_to_ranked_chunk rows)))

    abbrev pub chunk_ids : List (RankedChunk H) → List ℕ
    chunk_ids = map (λ (c : RankedChunk H). c.chunk_id)

    abbrev pub warnings_for : List (RankedChunk H) → Attempt (List (Warning H))
    warnings_for trimmed =
        or_err
          (collect_warnings H trimmed r.today r.config.stale_after_days
            (some r.config.weak_evidence_score_threshold)
            (some (effective_relevance_floor H r.config)) (some r.config.max_warning_rank)
            r.config.isolated_match_drop_threshold)
          date_overflow

    abbrev pub normalized_note : List String → List (Warning H)
    normalized_note [] = []
    normalized_note (p ∷ ps) = query_normalized_warning H (p ∷ ps) ∷ []

    abbrev pub result_of :
        List SearchRow → List (RankedChunk H) → List String → List (Warning H) → SearchResult
    result_of rows trimmed removed warnings = record {
      chunks = trimmed;
      warnings = warnings ++ normalized_note removed;
      document_refs = document_refs_from_rows rows;
      chunk_text = texts_of rows (chunk_ids trimmed);
    }

    abbrev pub with_rows : ℕ → List String → List SearchRow → Attempt SearchResult
    with_rows max_results removed rows = do
      let trimmed = rank rows max_results
      warnings ← warnings_for trimmed
      gives (result_of rows trimmed removed warnings)

    -- `HybridRetriever.search`
    unfoldable pub search : Text → ℕ → Attempt SearchResult
    unfolding effective_query rank collect_warnings query_normalized_warning refs_from
    search query max_results = do
      (effective, removed) ← effective_query query
      rows ← or_err (r.fetch effective) fetch_failed
      with_rows max_results removed rows
