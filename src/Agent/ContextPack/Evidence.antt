-- ===== src/Agent/ContextPack/Evidence.antt =====
-- Evidence chunks and their inline markers of src/cf_knowledge_kiln/agent/serializers.py.
use cf_knowledge_kiln.Base.{
  ℕ, Bool, true, false, ◌&&◌, Option, none, some, List, [], ◌∷◌, map, ◌==◌, if◌then◌else◌, keep,
  ℕ_discrete,
}
use cf_knowledge_kiln.Base.Host.{Host}
use cf_knowledge_kiln.Base.OrderedDict.{get}
use cf_knowledge_kiln.Retrieval.Ranking.Chunk.{RankedChunk}
use cf_knowledge_kiln.Retrieval.Types.{WarningType, Severity, blocking, Message, Warning}
use cf_knowledge_kiln.Agent.ContextPack.Shapes.{DocumentRef, EvidenceChunk}
use Prim.Native.String.{String}

-- `_INLINE_MARKER_ELIGIBLE_SEVERITIES`
abbrev pub is_eligible : Severity → Bool
is_eligible blocking = false
is_eligible _ = true

module _ (H : Host) where
  abbrev none_if_empty : List String → Option (List String)
  none_if_empty [] = none
  none_if_empty (x ∷ xs) = some (x ∷ xs)

  abbrev pub unknown_ref : ℕ → DocumentRef
  unknown_ref d = record {
    document_id = d;
    title = "(unknown)";
    repo = none;
    path = none;
    source_url = none;
    commit_sha = none;
    authority = none;
    owner = none;
  }

  -- `document_refs.get(...)` with the placeholder for a missing ref, and `chunk_text.get(..., "")`.
  abbrev pub ref_or_unknown : ℕ → Option DocumentRef → DocumentRef
  ref_or_unknown d none = unknown_ref d
  ref_or_unknown d (some ref) = ref

  abbrev pub text_or_empty : Option String → String
  text_or_empty none = ""
  text_or_empty (some text) = text

  -- The field `source_url: AnyUrl | None`: the platform's URL parser, which may refuse a text, gives
  -- the text that the field has then.
  abbrev validated : (String → Option String) → Option String → Option String
  validated any_url none = none
  validated any_url (some url) = any_url url

  abbrev refuses : (String → Option String) → Option String → Bool
  refuses any_url none = false
  refuses any_url (some url) = elim (any_url url) [ none ↦ true | some _ ↦ false ]

  -- The fields of the evidence chunk, where its URL is not refused.
  unfoldable pub evidence_of :
      (String → Option String)
      → List (ℕ × String)
      → List (ℕ × DocumentRef)
      → RankedChunk H
      → EvidenceChunk H
  evidence_of any_url chunk_text document_refs chunk =
      let ref = ref_or_unknown chunk.document_id (get ℕ_discrete chunk.document_id document_refs) in
      record {
        chunk_id = chunk.chunk_id;
        document_id = chunk.document_id;
        title = ref.title;
        repo = ref.repo;
        path = ref.path;
        heading_path = none_if_empty chunk.heading_path;
        source_url = validated any_url ref.source_url;
        commit_sha = ref.commit_sha;
        status = chunk.status;
        authority = ref.authority;
        owner = ref.owner;
        last_reviewed = chunk.last_reviewed;
        score = chunk.score;
        text = text_or_empty (get ℕ_discrete chunk.chunk_id chunk_text);
        markers = [];
      }

  -- The URL of the chunk's document is refused.
  abbrev pub is_refused : (String → Option String) → List (ℕ × DocumentRef) → RankedChunk H → Bool
  is_refused any_url document_refs chunk =
      refuses any_url
        (ref_or_unknown chunk.document_id
          (get ℕ_discrete chunk.document_id document_refs)).source_url

  -- `_to_evidence_chunk`; `none` is the ValidationError of the URL.
  unfoldable pub to_evidence_chunk :
      (String → Option String)
      → List (ℕ × String)
      → List (ℕ × DocumentRef)
      → RankedChunk H
      → Option (EvidenceChunk H)
  unfolding evidence_of
  to_evidence_chunk any_url chunk_text document_refs chunk =
      if is_refused any_url document_refs chunk
      then none
      else some (evidence_of any_url chunk_text document_refs chunk)

  -- `sorted(chunk_warnings, key=...)` by an order of the pairs of type and message.
  abbrev pub Before : Type 0
  Before = (WarningType × Message H) → (WarningType × Message H) → Bool

  abbrev insert_marker :
      Before
      → WarningType × Message H
      → List (WarningType × Message H)
      → List (WarningType × Message H)
  insert_marker le m [] = m ∷ []
  insert_marker le m (n ∷ ns) = if le m n then m ∷ n ∷ ns else n ∷ insert_marker le m ns

  unfoldable pub sort_markers :
      Before → List (WarningType × Message H) → List (WarningType × Message H)
  sort_markers le [] = []
  sort_markers le (m ∷ ms) = insert_marker le m (sort_markers le ms)

  -- The warning is eligible and about document `d`.
  abbrev pub marks : ℕ → Warning H → Bool
  marks d w = is_eligible w.severity && elim w.source_id [ none ↦ false | some i ↦ i == d ]

  unfoldable pub mark_chunk : Before → List (Warning H) → EvidenceChunk H → EvidenceChunk H
  unfolding sort_markers
  mark_chunk le warnings c = record c {
    markers =
        sort_markers le
          (map (λ (w : Warning H). (w.type, w.message)) (keep (marks c.document_id) warnings));
  }

  unfoldable pub embed_inline_warning_markers :
      Before → List (Warning H) → List (EvidenceChunk H) → List (EvidenceChunk H)
  unfolding mark_chunk
  embed_inline_warning_markers le warnings = map (mark_chunk le warnings)
