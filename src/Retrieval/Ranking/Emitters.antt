-- ===== src/Retrieval/Ranking/Emitters.antt =====
-- The warning emitters of src/cf_knowledge_kiln/retrieval/ranking.py, and `collect_warnings`,
-- `conflict_warnings` and `query_normalized_warning` of
-- src/cf_knowledge_kiln/retrieval/_engine_helpers.py.
pub mod Once
use cf_knowledge_kiln.Base.{
  ℕ, ◌-◌, Bool, true, not, ◌&&◌, Option, none, some, List, [], ◌∷◌, map, ltb, ◌==◌, if◌then◌else◌,
  take, length, keep, any,
}
use cf_knowledge_kiln.Base.Host.{Host}
use cf_knowledge_kiln.Retrieval.Ranking.Chunk.{RankedChunk, effective_threshold, best_score}
use cf_knowledge_kiln.Retrieval.Types.{
  is_retired, Conflict, WarningVariant, retired, conflicting, weak, injection, sensitive,
  normalized, last_reviewed_older, document_status_is, injection_phrase, sensitive_pattern,
  no_evidence, best_below, sources_address, phrases_stripped, Warning, downgrade_to_flat,
  default_severity, default_action,
}
use Prim.Native.String.{String}

-- `x in seen`, of a set of UUIDs.
abbrev pub is_seen : ℕ → List ℕ → Bool
is_seen x = any (λ y. y == x)

-- `today - timedelta(days=d)`: the first day is day 1, and before it stands an OverflowError.
abbrev pub date_before : ℕ → ℕ → Option ℕ
date_before today days = if ltb days today then some (today - days) else none

abbrev pub reviewed_before : ℕ → Option ℕ → Bool
reviewed_before threshold none = true
reviewed_before threshold (some last_reviewed) = ltb last_reviewed threshold

module _ (H : Host) where
  open H use {Num, lt}

  -- What `stale_warnings`, `deprecated_warnings` and the two emitters below append for a chunk.
  abbrev pub stale_warning : ℕ → RankedChunk H → Warning H
  stale_warning days c = downgrade_to_flat H (
      WarningVariant.stale default_severity default_action
        (last_reviewed_older c.last_reviewed days) c.document_id days c.last_reviewed)

  abbrev pub deprecated_warning : RankedChunk H → Warning H
  deprecated_warning c =
      downgrade_to_flat H (
        retired default_severity default_action (document_status_is c.status) c.document_id
          c.status)

  abbrev pub injection_warning : RankedChunk H → Warning H
  injection_warning c =
      downgrade_to_flat H
        (injection default_severity default_action injection_phrase c.document_id c.chunk_id)

  abbrev pub sensitive_warning : RankedChunk H → Warning H
  sensitive_warning c =
      downgrade_to_flat H
        (sensitive default_severity default_action sensitive_pattern c.document_id c.chunk_id)

  -- The loop of `stale_warnings`; `seen` holds the documents that were warned of.
  unfoldable pub stale_from : ℕ → ℕ → List ℕ → List (RankedChunk H) → List (Warning H)
  stale_from days threshold seen [] = []
  stale_from days threshold seen (c ∷ chunks) =
      let skip = stale_from days threshold seen chunks in
      let warn = stale_warning days c ∷ stale_from days threshold (c.document_id ∷ seen) chunks in
      if is_seen c.document_id seen
      then skip
      else if reviewed_before threshold c.last_reviewed
      then warn
      else skip

  -- `none` is the OverflowError of the date arithmetic.
  unfoldable pub stale_warnings : List (RankedChunk H) → ℕ → Option ℕ → Option (List (Warning H))
  unfolding stale_from
  stale_warnings chunks today none = some []
  stale_warnings chunks today (some days) = elim (date_before today days) [
    | none ↦ none
    | some threshold ↦ some (stale_from days threshold [] chunks)
  ]

  unfoldable pub deprecated_from : List ℕ → List (RankedChunk H) → List (Warning H)
  deprecated_from seen [] = []
  deprecated_from seen (c ∷ chunks) =
      let skip = deprecated_from seen chunks in
      let warn = deprecated_warning c ∷ deprecated_from (c.document_id ∷ seen) chunks in
      if is_retired c.status && not (is_seen c.document_id seen) then warn else skip

  unfoldable pub deprecated_warnings : List (RankedChunk H) → List (Warning H)
  unfolding deprecated_from
  deprecated_warnings = deprecated_from []

  -- `c.score >= floor`, where no floor is minus infinity.
  abbrev pub clears : Option Num → RankedChunk H → Bool
  clears none c = true
  clears (some floor) c = not (lt c.score floor)

  abbrev pub within_rank : Option ℕ → List (RankedChunk H) → List (RankedChunk H)
  within_rank none chunks = chunks
  within_rank (some rank) chunks = take rank chunks

  unfoldable pub gate_for_warnings :
      List (RankedChunk H) → Option Num → Option ℕ → List (RankedChunk H)
  gate_for_warnings chunks none none = chunks
  gate_for_warnings chunks relevance_floor max_warning_rank =
      keep (clears relevance_floor) (within_rank max_warning_rank chunks)

  unfoldable pub prompt_injection_warnings :
      List (RankedChunk H) → Option Num → Option ℕ → List (Warning H)
  unfolding gate_for_warnings
  prompt_injection_warnings chunks floor rank =
      map injection_warning
        (keep (λ c. c.has_prompt_injection) (gate_for_warnings chunks floor rank))

  unfoldable pub sensitive_content_warnings :
      List (RankedChunk H) → Option Num → Option ℕ → List (Warning H)
  unfolding gate_for_warnings
  sensitive_content_warnings chunks floor rank =
      map sensitive_warning
        (keep (λ c. c.has_sensitive_content) (gate_for_warnings chunks floor rank))

  unfoldable pub weak_evidence_warning : List (RankedChunk H) → Option Num → List (Warning H)
  unfolding best_score
  weak_evidence_warning [] threshold =
      downgrade_to_flat H
        (weak default_severity default_action no_evidence none (effective_threshold H threshold))
      ∷ []
  weak_evidence_warning (c ∷ chunks) threshold =
      let best = best_score H c chunks in
      let effective = effective_threshold H threshold in
      if lt best effective
      then downgrade_to_flat H
          (weak default_severity default_action (best_below best effective) (some best) effective)
        ∷ []
      else []

  unfoldable pub conflict_warnings : List Conflict → List (Warning H)
  conflict_warnings = map (λ c. downgrade_to_flat H (
      conflicting default_severity default_action (sources_address (length c.source_ids) c.topic)
        c.source_ids c.topic))

  unfoldable pub query_normalized_warning : List String → Warning H
  query_normalized_warning removed_phrases = downgrade_to_flat H (
      normalized default_severity default_action (phrases_stripped removed_phrases) removed_phrases)
