-- ===== src/Retrieval/Engine/Pack.antt =====
-- The context pack from the query on: `build_context_pack` of
-- src/cf_knowledge_kiln/retrieval/context_pack.py.
use cf_knowledge_kiln.Base.{ℕ, Bool, some, List, [], ◌++◌}
use cf_knowledge_kiln.Base.Host.{Host}
use cf_knowledge_kiln.Base.Texts.{Text, strip, is_empty}
use cf_knowledge_kiln.Retrieval.Config.{effective_relevance_floor}
use cf_knowledge_kiln.Retrieval.Conflicts.{detect_conflicts}
use cf_knowledge_kiln.Retrieval.Ranking.Chunk.{RankedChunk}
use cf_knowledge_kiln.Retrieval.Ranking.Emitters.{conflict_warnings}
use cf_knowledge_kiln.Retrieval.Types.{Conflict, Warning}
use cf_knowledge_kiln.Agent.ContextPack.Shapes.{SerializerInputs, ContextPackResponse}
use cf_knowledge_kiln.Agent.ContextPack.Assembly.{Surroundings, assemble_context_pack}
use cf_knowledge_kiln.Retrieval.Engine.{
  empty_task, fetch_failed, assembly_failed, empty_query, Attempt, ◌>>=◌, or_err, refuse_if,
  SearchRow, Retriever, effective_query, rank, warnings_for, normalized_note,
  document_refs_from_rows, texts_of, chunk_ids,
}
use Prim.Native.String.{String}

module _ (H : Host) (r : Retriever H) where
  abbrev pub conflicts_among : List (RankedChunk H) → List Conflict
  conflicts_among trimmed =
      detect_conflicts H trimmed (some (effective_relevance_floor H r.config))
        (some r.config.max_warning_rank)

  -- The inputs of the serializer for the rows that were found.
  unfoldable pub inputs_for :
      List (SearchRow H)
      → List (RankedChunk H)
      → List (Warning H)
      → List String
      → SerializerInputs H
  unfolding detect_conflicts conflict_warnings
  inputs_for rows trimmed warnings removed =
      let conflicts = conflicts_among trimmed in
      record {
        chunks = trimmed;
        warnings = warnings ++ conflict_warnings H conflicts ++ normalized_note H r removed;
        conflicts = conflicts;
        chunk_text = texts_of H rows (chunk_ids H r trimmed);
        document_refs = document_refs_from_rows H rows;
        related_sources = [];
      }

  -- The stages, from the last to the whole.
  abbrev pub with_warnings :
      Surroundings H
      → ℕ
      → ℕ
      → Bool
      → List String
      → List (SearchRow H)
      → List (Warning H)
      → Attempt (ContextPackResponse H)
  with_warnings s max_chunks max_tokens embed removed rows warnings =
      or_err
        (assemble_context_pack H s (inputs_for rows (rank H r rows max_chunks) warnings removed)
          max_chunks max_tokens (some r.config.weak_evidence_score_threshold) embed)
        assembly_failed

  abbrev pub with_found :
      Surroundings H
      → ℕ
      → ℕ
      → Bool
      → List String
      → List (SearchRow H)
      → Attempt (ContextPackResponse H)
  with_found s max_chunks max_tokens embed removed rows = do
    warnings ← warnings_for H r (rank H r rows max_chunks)
    with_warnings s max_chunks max_tokens embed removed rows warnings

  abbrev pub after_task : Surroundings H → Text → ℕ → ℕ → Bool → Attempt (ContextPackResponse H)
  after_task s query max_chunks max_tokens embed = do
    (effective, removed) ← effective_query H r query
    rows ← or_err (r.fetch effective) fetch_failed
    with_found s max_chunks max_tokens embed removed rows

  -- `build_context_pack`
  unfoldable pub build_context_pack :
      Surroundings H → Text → Text → ℕ → ℕ → Bool → Attempt (ContextPackResponse H)
  unfolding effective_query rank inputs_for assemble_context_pack
  build_context_pack s task query max_chunks max_tokens embed = do
    _ ← refuse_if (is_empty (strip query)) empty_query
    _ ← refuse_if (is_empty (strip task)) empty_task
    after_task s query max_chunks max_tokens embed
