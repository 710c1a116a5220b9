-- ===== src/Retrieval/Ranking/Chunk.antt =====
-- `RankedChunk` of src/cf_knowledge_kiln/retrieval/ranking.py, and what all the parts read of it.
use cf_knowledge_kiln.Base.{ℕ, Bool, true, Option, none, some, List, [], ◌∷◌, ◌≡◌, arith, All, ◌↔◌}
use cf_knowledge_kiln.Base.Host.{Host, max_num, IsOrdered}
use cf_knowledge_kiln.Retrieval.Config.{default_weak_evidence_score_threshold}
use cf_knowledge_kiln.Retrieval.Types.{Status}
use Prim.Native.String.{String}

pub record RankedChunk (H : Host) : Type 0 where
  pub chunk_id : ℕ
  pub document_id : ℕ
  pub score : H.Num
  pub status : Status
  pub heading_path : List String
  pub authority : Option String
  pub last_reviewed : Option ℕ
  pub has_prompt_injection : Bool
  pub has_sensitive_content : Bool
  pub chunk_metadata : List (String × H.Json)
  pub chunk_index : ℕ
  pub chunk_count : ℕ

module _ (H : Host) where
  open H use {Num, lt}

  -- The threshold in force: the module's constant where the caller gives none.
  abbrev pub effective_threshold : Option Num → Num
  effective_threshold none = default_weak_evidence_score_threshold H
  effective_threshold (some threshold) = threshold

  -- `max(c.score for c in c :: chunks)`, from the score found so far.
  unfoldable pub best_from : Num → List (RankedChunk H) → Num
  best_from best [] = best
  best_from best (c ∷ chunks) = best_from (max_num H best c.score) chunks

  -- `max(...) < threshold`, of a list that is not empty.
  unfoldable pub best_score : RankedChunk H → List (RankedChunk H) → Num
  unfolding best_from
  best_score c chunks = best_from c.score chunks

  module _ (ordered : IsOrdered H) (threshold : Num) where
    best_from-lt :
        (best : Num) (chunks : List (RankedChunk H))
        → lt (best_from best chunks) threshold ≡ true
        → (lt best threshold ≡ true) × All (λ c. lt c.score threshold ≡ true) chunks
    unfolding best_from
    best_from-lt best [] h = (h, tt)
    best_from-lt best (c ∷ chunks) h =
        let (head, tail) = best_from-lt (max_num H best c.score) chunks h in
        (
          ground (arith, ordered.lt_trans best c.score threshold),
          (ground (arith, ordered.ge_trans best c.score threshold), tail),
        )

    lt-best_from :
        (best : Num) (chunks : List (RankedChunk H))
        → lt best threshold ≡ true
        → All (λ c. lt c.score threshold ≡ true) chunks
        → lt (best_from best chunks) threshold ≡ true
    unfolding best_from
    lt-best_from best [] h all = h
    lt-best_from best (c ∷ chunks) h all =
        lt-best_from (max_num H best c.score) chunks (ground arith) all.1

    -- The best score is below the threshold exactly if every score is.
    pub best_score-lt_iff :
        (c : RankedChunk H) (chunks : List (RankedChunk H))
        → (lt (best_score c chunks) threshold ≡ true)
          ↔ All (λ d. lt d.score threshold ≡ true) (c ∷ chunks)
    unfolding best_score
    best_score-lt_iff c chunks =
        (best_from-lt c.score chunks, λ h. lt-best_from c.score chunks h.0 h.1)
