-- ===== src/Retrieval/Ranking/Review.antt =====
-- `requires_human_review` of src/cf_knowledge_kiln/retrieval/ranking.py, and `collect_warnings`
-- of src/cf_knowledge_kiln/retrieval/_engine_helpers.py, which feeds it.
pub mod Alarms
use cf_knowledge_kiln.Base.{
  ℕ, Bool, true, false, Option, none, some, List, [], ◌∷◌, ◌++◌, ◌≡◌, refl, if◌then◌else◌, arith,
  All, all, any, ◌≢◌, ◌↔◌, Bool-cases, inl, inr,
}
use cf_knowledge_kiln.Base.Host.{Host, IsOrdered}
use cf_knowledge_kiln.Retrieval.Ranking.Chunk.{
  RankedChunk, effective_threshold, best_score, best_score-lt_iff,
}
use cf_knowledge_kiln.Retrieval.Ranking.Emitters.{
  stale_warnings, deprecated_warnings, prompt_injection_warnings, sensitive_content_warnings,
  weak_evidence_warning,
}
use cf_knowledge_kiln.Retrieval.Ranking.Isolated.{isolated_match_warning}
use cf_knowledge_kiln.Retrieval.Types.{
  WarningType, prompt_injection_pattern, sensitive_content, isolated_match, is_retired, is_draft,
  Conflict, Warning,
}

-- `w.type in bad_types`
abbrev pub forces_review : WarningType → Bool
forces_review prompt_injection_pattern = true
forces_review sensitive_content = true
forces_review isolated_match = true
forces_review _ = false

module _ (H : Host) where
  open H use {Num, lt}

  -- A set of statuses is a subset of another, or is `{"draft"}`, if every chunk's status is in it.
  unfoldable pub requires_human_review :
      List (RankedChunk H) → List (Warning H) → List Conflict → Option Num → Bool
  unfolding best_score
  requires_human_review evidence warnings (_ ∷ _) threshold = true
  requires_human_review [] warnings [] threshold = true
  requires_human_review (c ∷ evidence) warnings [] threshold =
      if all (λ d. is_retired d.status) (c ∷ evidence)
      then true
      else if all (λ d. is_draft d.status) (c ∷ evidence)
      then true
      else if any (λ w. forces_review w.type) warnings
      then true
      else lt (best_score H c evidence) (effective_threshold H threshold)

  -- `none` is the OverflowError of `stale_warnings`.
  unfoldable pub collect_warnings :
      List (RankedChunk H)
      → ℕ
      → Option ℕ
      → Option Num
      → Option Num
      → Option ℕ
      → Option Num
      → Option (List (Warning H))
  collect_warnings chunks today stale_after_days weak floor rank drop =
      elim (stale_warnings H chunks today stale_after_days) [
        | none ↦ none
        | some stale ↦ some (
            stale
            ++ (deprecated_warnings H chunks
                ++ (prompt_injection_warnings H chunks floor rank
                    ++ (sensitive_content_warnings H chunks floor rank
                        ++ (weak_evidence_warning H chunks weak
                            ++ isolated_match_warning H chunks drop weak)))))
      ]

  -- Evidence that a caller may act on without a review.
  pub record IsClear (evidence : List (RankedChunk H)) (warnings : List (Warning H))
      (conflicts : List Conflict) (threshold : Option Num) : Type 0 where
    pub no_conflict : conflicts ≡ []
    pub some_evidence : evidence ≢ []
    pub some_current : all (λ c. is_retired c.status) evidence ≡ false
    pub some_final : all (λ c. is_draft c.status) evidence ≡ false
    pub no_alarm : any (λ w. forces_review w.type) warnings ≡ false
    pub some_strong : ¬ All (λ c. lt c.score (effective_threshold H threshold) ≡ true) evidence

  -- Under an ordered host, no review is required exactly if there is no conflict, some evidence,
  -- not all of it retired and not all draft, no warning of the three forcing types, and a chunk
  -- that reaches the threshold.
  pub requires_human_review_iff :
      (evidence : List (RankedChunk H)) (warnings : List (Warning H)) (conflicts : List Conflict)
      (threshold : Option Num)
      → IsOrdered H
      → (requires_human_review evidence warnings conflicts threshold ≡ false)
        ↔ IsClear evidence warnings conflicts threshold
  unfolding requires_human_review
  requires_human_review_iff evidence warnings (k ∷ ks) threshold ordered =
      (λ h. cc, λ h. ground arith)
  requires_human_review_iff [] warnings [] threshold ordered =
      (λ h. cc, λ h. absurd (h.some_evidence refl))
  requires_human_review_iff (c ∷ evidence) warnings [] threshold ordered =
      let weak = best_score-lt_iff H ordered (effective_threshold H threshold) c evidence in
      (
        λ h. record {
          no_conflict = refl;
          some_evidence = λ e. cc;
          some_current = ground arith;
          some_final = ground arith;
          no_alarm = ground arith;
          some_strong = λ all_weak. let low = weak.1 all_weak in ground arith;
        },
        λ clear.
            elim (Bool-cases (lt (best_score H c evidence) (effective_threshold H threshold))) [
              | inl low ↦ absurd (clear.some_strong (weak.0 low))
              | inr fine ↦
                  let a = clear.some_current in
                  let b = clear.some_final in let n = clear.no_alarm in ground arith
            ],
      )
