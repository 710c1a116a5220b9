-- ===== src/Agent/ContextPack/Trim.antt =====
-- Token budgeting and the confidence bucket of src/cf_knowledge_kiln/agent/serializers.py.
-- Tokens are counted by a function of the platform.
use cf_knowledge_kiln.Base.{
  ℕ, ◌+◌, Bool, true, false, not, ◌&&◌, Option, none, some, List, [], ◌∷◌, ◌++◌, ◌==◌, ltb, leb,
  if◌then◌else◌, length, any,
}
use cf_knowledge_kiln.Base.Host.{Host}
use cf_knowledge_kiln.Retrieval.Ranking.Chunk.{RankedChunk, effective_threshold, best_score}
use cf_knowledge_kiln.Retrieval.Types.{
  WarningType, stale_source, deprecated_source, weak_evidence, conflicting_sources, Confidence,
  high, medium, low, no_confidence, Warning,
}
use Prim.Native.String.{String}

-- `_DOWNGRADING_WARNING_TYPES`
abbrev pub is_downgrading : WarningType → Bool
is_downgrading stale_source = true
is_downgrading deprecated_source = true
is_downgrading weak_evidence = true
is_downgrading conflicting_sources = true
is_downgrading _ = false

module _ (H : Host) where
  open H use {Num, lt, lit}

  -- The loop of `trim_evidence_to_budget`.
  unfoldable pub trim_from :
      (String → ℕ)
      → ℕ
      → ℕ
      → List (RankedChunk H)
      → ℕ
      → List (RankedChunk H × String)
      → List (RankedChunk H) × ℕ
  trim_from count_tokens max_chunks max_tokens kept used [] = (kept, used)
  trim_from count_tokens max_chunks max_tokens kept used ((chunk, text) ∷ rest) =
      let tokens = count_tokens text in
      let next =
        trim_from count_tokens max_chunks max_tokens (kept ++ chunk ∷ []) (used + tokens) rest in
      if leb max_chunks (length kept)
      then (kept, used)
      else if ltb max_tokens (used + tokens) && ltb 0 (length kept)
      then (kept, used)
      else next

  abbrev pub zip : List (RankedChunk H) → List String → List (RankedChunk H × String)
  zip (c ∷ chunks) (t ∷ contents) = (c, t) ∷ zip chunks contents
  zip _ _ = []

  -- `none` is the ValueError of two lists that do not align.
  unfoldable pub trim_evidence_to_budget :
      (String → ℕ) → List (RankedChunk H) → List String → ℕ → ℕ → Option (List (RankedChunk H) × ℕ)
  unfolding trim_from
  trim_evidence_to_budget count_tokens [] contents max_chunks max_tokens = some ([], 0)
  trim_evidence_to_budget count_tokens (c ∷ chunks) contents max_chunks max_tokens =
      if length contents == length (c ∷ chunks)
      then some (trim_from count_tokens max_chunks max_tokens [] 0 (zip (c ∷ chunks) contents))
      else none

  unfoldable pub derive_confidence :
      List (RankedChunk H) → List (Warning H) → Option Num → Confidence
  unfolding best_score
  derive_confidence [] warnings threshold = no_confidence
  derive_confidence (c ∷ chunks) warnings threshold =
      let top = best_score H c chunks in
      let has_downgrade = any (λ w. is_downgrading w.type) warnings in
      if lt top (effective_threshold H threshold)
      then low
      else if not (lt top (lit 8 1))
      then if has_downgrade then medium else high
      else if has_downgrade
      then low
      else medium
