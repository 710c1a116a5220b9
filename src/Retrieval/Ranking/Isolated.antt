-- ===== src/Retrieval/Ranking/Isolated.antt =====
-- `isolated_match_warning` of src/cf_knowledge_kiln/retrieval/ranking.py.
use cf_knowledge_kiln.Base.{
  Bool, true, not, ◌&&◌, ◌||◌, Option, none, some, List, [], ◌∷◌, ◌≡◌, refl, leb, if◌then◌else◌,
  All, ◌≢◌, Bool-cases, inl, inr,
}
use cf_knowledge_kiln.Base.Host.{Host, IsOrdered}
use cf_knowledge_kiln.Retrieval.Ranking.Chunk.{
  RankedChunk, effective_threshold, best_score, best_score-lt_iff,
}
use cf_knowledge_kiln.Retrieval.Ranking.Emitters.{weak_evidence_warning}
use cf_knowledge_kiln.Retrieval.Types.{
  isolated, top_isolated, Warning, downgrade_to_flat, default_severity, default_action,
}

module _ (H : Host) where
  open H use {Num, lt, sub}

  -- `(-a.score, str(a.chunk_id)) <= (-b.score, str(b.chunk_id))`
  abbrev ranks_before : RankedChunk H → RankedChunk H → Bool
  ranks_before a b = lt b.score a.score || (not (lt a.score b.score) && leb a.chunk_id b.chunk_id)

  -- `sorted(chunks, key=...)`, a stable sort: insertion behind what ranks as high.
  abbrev insert_ranked : RankedChunk H → List (RankedChunk H) → List (RankedChunk H)
  insert_ranked c [] = c ∷ []
  insert_ranked c (d ∷ ds) = if ranks_before c d then c ∷ d ∷ ds else d ∷ insert_ranked c ds

  unfoldable pub sort_ranked : List (RankedChunk H) → List (RankedChunk H)
  sort_ranked [] = []
  sort_ranked (c ∷ chunks) = insert_ranked c (sort_ranked chunks)

  unfoldable pub isolated_among : Num → Num → List (RankedChunk H) → List (Warning H)
  isolated_among drop_threshold weak_floor (top ∷ runner_up ∷ _) =
      let gap = sub top.score runner_up.score in
      if lt top.score weak_floor
      then []
      else if not (lt drop_threshold gap)
      then []
      else downgrade_to_flat H (
          isolated default_severity default_action
            (top_isolated top.score runner_up.score gap drop_threshold) top.score runner_up.score
            gap drop_threshold top.document_id top.chunk_id)
        ∷ []
  isolated_among drop_threshold weak_floor _ = []

  unfoldable pub isolated_match_warning :
      List (RankedChunk H) → Option Num → Option Num → List (Warning H)
  unfolding isolated_among sort_ranked
  isolated_match_warning chunks none weak_evidence_threshold = []
  isolated_match_warning chunks (some drop_threshold) weak_evidence_threshold =
      isolated_among drop_threshold (effective_threshold H weak_evidence_threshold)
        (sort_ranked chunks)

  module _ (P : RankedChunk H → Type 0) where
    All-insert_ranked :
        (c : RankedChunk H) (ds : List (RankedChunk H))
        → P c
        → All P ds
        → All P (insert_ranked c ds)
    All-insert_ranked c [] h all = (h, tt)
    All-insert_ranked c (d ∷ ds) h all = elim (Bool-cases (ranks_before c d)) [
      | inl p ↦ rw p (h, all)
      | inr p ↦ rw p (all.0, All-insert_ranked c ds h all.1)
    ]

    All-sort_ranked : (chunks : List (RankedChunk H)) → All P chunks → All P (sort_ranked chunks)
    unfolding sort_ranked
    All-sort_ranked [] h = tt
    All-sort_ranked (c ∷ chunks) h =
        All-insert_ranked c (sort_ranked chunks) h.0 (All-sort_ranked chunks h.1)

  isolated_among_below :
      (drop_threshold weak_floor : Num) (ranked : List (RankedChunk H))
      → All (λ c. lt c.score weak_floor ≡ true) ranked
      → isolated_among drop_threshold weak_floor ranked ≡ []
  unfolding isolated_among
  isolated_among_below d w (top ∷ runner_up ∷ _) h = rw (h.0)
  isolated_among_below d w _ h = refl

  -- Under an ordered host, where the weak-evidence warning is emitted, no isolated-match warning
  -- is.
  pub weak_or_isolated :
      (chunks : List (RankedChunk H)) (drop threshold : Option Num)
      → IsOrdered H
      → weak_evidence_warning H chunks threshold ≢ []
      → isolated_match_warning chunks drop threshold ≡ []
  unfolding weak_evidence_warning isolated_match_warning
  weak_or_isolated chunks none threshold ordered weak = refl
  weak_or_isolated [] (some drop) threshold ordered weak = refl
  weak_or_isolated (c ∷ chunks) (some drop) threshold ordered weak =
      isolated_among_below drop (effective_threshold H threshold) (sort_ranked (c ∷ chunks)) (
        All-sort_ranked (λ d. lt d.score (effective_threshold H threshold) ≡ true) (c ∷ chunks)
          ((best_score-lt_iff H ordered (effective_threshold H threshold) c chunks).0 weakness))
    where
      weakness : lt (best_score H c chunks) (effective_threshold H threshold) ≡ true
      weakness = elim (Bool-cases (lt (best_score H c chunks) (effective_threshold H threshold))) [
        | inl e ↦ e
        | inr e ↦ absurd (weak (rw e))
      ]
