-- ===== src/Retrieval/Ranking/Review/Alarms.antt =====
-- What the collected warnings do to the review, and the policy fields that they carry.
use cf_knowledge_kiln.Base.{
  ℕ, Bool, true, not, ◌&&◌, ◌||◌, Option, none, some, List, [], ◌∷◌, ◌++◌, map, ◌≡◌, refl, sym, ◌∙◌,
  arith, All, All-append, All-map, any, any-append, any-or, keep, ◌≢◌, Bool-cases, inl, inr,
  Option-cases, some_inj, none-ne-some, subst,
}
use cf_knowledge_kiln.Base.Host.{Host}
use cf_knowledge_kiln.Retrieval.Ranking.Chunk.{RankedChunk, best_score, effective_threshold}
use cf_knowledge_kiln.Retrieval.Ranking.Emitters.{
  is_seen, date_before, reviewed_before, stale_from, stale_warnings, deprecated_from,
  deprecated_warnings, gate_for_warnings, injection_warning, sensitive_warning,
  prompt_injection_warnings, sensitive_content_warnings, weak_evidence_warning,
}
use cf_knowledge_kiln.Retrieval.Ranking.Emitters.Once.{stale_warnings_over, stale_warnings_within}
use cf_knowledge_kiln.Retrieval.Ranking.Isolated.{
  isolated_match_warning, isolated_among, sort_ranked,
}
use cf_knowledge_kiln.Retrieval.Ranking.Review.{
  forces_review, requires_human_review, collect_warnings,
}
use cf_knowledge_kiln.Retrieval.Types.{
  is_retired, WarningType, advisory, blocking, inform, Conflict, Warning, downgrade_to_flat,
}
use cf_knowledge_kiln.Retrieval.WarningPolicy.{severity_for}

blocked : (t : WarningType) → severity_for t ≡ blocking → advisory ≢ severity_for t
blocked t blocks same = cc

module _ (H : Host) where
  open H use {Num}

  alarmed :
      (evidence : List (RankedChunk H)) (warnings : List (Warning H)) (conflicts : List Conflict)
      (threshold : Option Num)
      → any (λ w. forces_review w.type) warnings ≡ true
      → requires_human_review H evidence warnings conflicts threshold ≡ true
  unfolding requires_human_review
  alarmed evidence warnings (k ∷ ks) threshold h = refl
  alarmed [] warnings [] threshold h = refl
  alarmed (c ∷ evidence) warnings [] threshold h = ground arith

  any-flagged :
      (f : RankedChunk H → Bool) (w : RankedChunk H → Warning H) (chunks : List (RankedChunk H))
      → ((c : RankedChunk H) → forces_review (w c).type ≡ true)
      → any (λ v. forces_review v.type) (map w (keep f chunks)) ≡ any f chunks
  any-flagged f w [] h = refl
  any-flagged f w (c ∷ chunks) h = ground (arith, h c, any-flagged f w chunks h)

  -- The policy fields of a warning are the defaults of `_VariantBase`, against the policy where
  -- that blocks.
  abbrev pub IsPlain : Warning H → Type 0
  IsPlain w =
      (w.severity ≡ advisory)
      × (w.action ≡ inform)
      × (severity_for w.type ≡ blocking → w.severity ≢ severity_for w.type)

  stale_from-IsPlain :
      (days threshold : ℕ) (seen : List ℕ) (chunks : List (RankedChunk H))
      → All IsPlain (stale_from H days threshold seen chunks)
  unfolding stale_from downgrade_to_flat
  stale_from-IsPlain days threshold seen [] = tt
  stale_from-IsPlain days threshold seen (c ∷ chunks) =
      let skip = stale_from-IsPlain days threshold seen chunks in
      let warn = stale_from-IsPlain days threshold (c.document_id ∷ seen) chunks in
      elim (Bool-cases (is_seen c.document_id seen)) [
        | inl old ↦ rw (old, stale_from) skip
        | inr new ↦
            rw (new, stale_from)
              (elim (Bool-cases (reviewed_before threshold c.last_reviewed)) [
                | inl bad ↦ rw bad ((refl, refl, blocked _), warn)
                | inr good ↦ rw good skip
              ])
      ]

  deprecated_from-IsPlain :
      (seen : List ℕ) (chunks : List (RankedChunk H)) → All IsPlain (deprecated_from H seen chunks)
  unfolding deprecated_from downgrade_to_flat
  deprecated_from-IsPlain seen [] = tt
  deprecated_from-IsPlain seen (c ∷ chunks) =
      let skip = deprecated_from-IsPlain seen chunks in
      let warn = deprecated_from-IsPlain (c.document_id ∷ seen) chunks in
      elim (Bool-cases (is_retired c.status && not (is_seen c.document_id seen))) [
        | inl bad ↦ rw (bad, deprecated_from) ((refl, refl, blocked _), warn)
        | inr good ↦ rw (good, deprecated_from) skip
      ]

  stale_warnings-IsPlain :
      (chunks : List (RankedChunk H)) (today : ℕ) (days : Option ℕ) {warnings : List (Warning H)}
      → stale_warnings H chunks today days ≡ some warnings
      → All IsPlain warnings
  unfolding stale_warnings
  stale_warnings-IsPlain chunks today none e = subst (All IsPlain) (some_inj e) tt
  stale_warnings-IsPlain chunks today (some days) e = elim (Option-cases (date_before today days)) [
    | inl over ↦ absurd (none-ne-some (sym (stale_warnings_over H chunks today days over) ∙ e))
    | inr (threshold, within) ↦
        subst (All IsPlain)
          (some_inj (sym (stale_warnings_within H chunks today days threshold within) ∙ e))
          (stale_from-IsPlain days threshold [] chunks)
  ]

  weak_evidence_warning-IsPlain :
      (chunks : List (RankedChunk H)) (threshold : Option Num)
      → All IsPlain (weak_evidence_warning H chunks threshold)
  unfolding weak_evidence_warning downgrade_to_flat
  weak_evidence_warning-IsPlain [] threshold = ((refl, refl, blocked _), tt)
  weak_evidence_warning-IsPlain (c ∷ chunks) threshold =
      elim (Bool-cases (H.lt (best_score H c chunks) (effective_threshold H threshold))) [
        | inl e ↦ rw e ((refl, refl, blocked _), tt)
        | inr e ↦ rw e tt
      ]

  isolated_among-IsPlain :
      (d w : Num) (ranked : List (RankedChunk H)) → All IsPlain (isolated_among H d w ranked)
  unfolding isolated_among downgrade_to_flat
  isolated_among-IsPlain d w (top ∷ next ∷ _) = elim (Bool-cases (H.lt top.score w)) [
    | inl e ↦ rw e tt
    | inr e ↦ rw e (elim (Bool-cases (H.lt d (H.sub top.score next.score))) [
      | inl f ↦ rw f ((refl, refl, blocked _), tt)
      | inr f ↦ rw f tt
    ])
  ]
  isolated_among-IsPlain d w _ = tt

  isolated_match_warning-IsPlain :
      (chunks : List (RankedChunk H)) (drop threshold : Option Num)
      → All IsPlain (isolated_match_warning H chunks drop threshold)
  unfolding isolated_match_warning
  isolated_match_warning-IsPlain chunks none threshold = tt
  isolated_match_warning-IsPlain chunks (some d) threshold =
      isolated_among-IsPlain d (effective_threshold H threshold) (sort_ranked H chunks)

  module _ (chunks : List (RankedChunk H)) (today : ℕ) (days : Option ℕ) (weak floor : Option Num)
      (rank : Option ℕ) (drop : Option Num) {warnings : List (Warning H)}
      (collected : collect_warnings H chunks today days weak floor rank drop ≡ some warnings) where
    collected_parts :
        (stale : List (Warning H)) × (stale_warnings H chunks today days ≡ some stale)
        × (warnings
            ≡ stale
              ++ (deprecated_warnings H chunks
                  ++ (prompt_injection_warnings H chunks floor rank
                      ++ (sensitive_content_warnings H chunks floor rank
                          ++ (weak_evidence_warning H chunks weak
                              ++ isolated_match_warning H chunks drop weak)))))
    unfolding collect_warnings
    collected_parts = elim (Option-cases (stale_warnings H chunks today days)) [
      | inl e ↦ absurd (none-ne-some (rw (e, collect_warnings) at collected))
      | inr (stale, e) ↦ (stale, e, some_inj (sym (rw (e, collect_warnings) at collected)))
    ]

    -- A chunk that clears the gate and was flagged at ingest for an injection phrase or for
    -- sensitive content makes the collected warnings force a review, whatever evidence, conflicts
    -- and threshold go with them.
    pub flagged_forces_review :
        (evidence : List (RankedChunk H)) (conflicts : List Conflict) (threshold : Option Num)
        → any
            (λ c. c.has_prompt_injection || c.has_sensitive_content)
            (gate_for_warnings H chunks floor rank)
          ≡ true
        → requires_human_review H evidence warnings conflicts threshold ≡ true
    unfolding prompt_injection_warnings sensitive_content_warnings downgrade_to_flat
    flagged_forces_review evidence conflicts threshold h =
        let (stale, e, parts) = collected_parts in
        let gated = gate_for_warnings H chunks floor rank in
        alarmed evidence warnings conflicts threshold (
          rw
            (
              parts,
              any-append _ stale _,
              any-append _ (deprecated_warnings H chunks) _,
              any-append _ (prompt_injection_warnings H chunks floor rank) _,
              any-append _ (sensitive_content_warnings H chunks floor rank) _,
              any-flagged (λ c. c.has_prompt_injection) (injection_warning H) gated (λ c. refl),
              any-flagged (λ c. c.has_sensitive_content) (sensitive_warning H) gated (λ c. refl),
            )
            (ground (
              arith,
              any-or (λ (c : RankedChunk H). c.has_prompt_injection)
                  (λ (c : RankedChunk H). c.has_sensitive_content) gated,
            )))

    -- Every collected warning carries the default severity and action, so that a warning of a type
    -- that the policy blocks does not carry the severity that the policy gives it.
    pub collected_severity : All IsPlain warnings
    unfolding deprecated_warnings prompt_injection_warnings sensitive_content_warnings
        downgrade_to_flat
    collected_severity =
        let (stale, e, parts) = collected_parts in
        rw parts (
          All-append IsPlain stale _ (stale_warnings-IsPlain chunks today days e) (
            All-append IsPlain (deprecated_warnings H chunks) _ (deprecated_from-IsPlain [] chunks)
              (All-append IsPlain (prompt_injection_warnings H chunks floor rank) _
                (All-map IsPlain _ _ (λ c. (refl, refl, blocked _)))
                (All-append IsPlain (sensitive_content_warnings H chunks floor rank) _
                  (All-map IsPlain _ _ (λ c. (refl, refl, blocked _)))
                  (All-append IsPlain (weak_evidence_warning H chunks weak) _
                    (weak_evidence_warning-IsPlain chunks weak)
                    (isolated_match_warning-IsPlain chunks drop weak))))))
