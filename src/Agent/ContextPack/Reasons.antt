-- ===== src/Agent/ContextPack/Reasons.antt =====
-- When a pack of src/cf_knowledge_kiln/agent/serializers.py is answerable, how confident it is, and
-- how its review reasons agree with its review flag.
use cf_knowledge_kiln.Base.{
  ℕ, ◌-◌, ◌≤◌, Bool, true, false, not, ◌||◌, Option, none, List, [], ◌∷◌, ◌≡◌, refl, ◌∙◌, ltb,
  length, keep, any, All, count, arith, inl, inr, ◌≢◌, ◌↔◌, Bool-cases,
}
use cf_knowledge_kiln.Base.Host.{Host, IsOrdered}
use cf_knowledge_kiln.Retrieval.Ranking.Chunk.{
  RankedChunk, effective_threshold, best_score, best_score-lt_iff,
}
use cf_knowledge_kiln.Retrieval.Ranking.Review.{
  requires_human_review, requires_human_review_iff, IsClear, forces_review,
}
use cf_knowledge_kiln.Retrieval.Types.{
  Warning, high, no_confidence, WarningType, isolated_match, Conflict,
}
use cf_knowledge_kiln.Agent.ContextPack.Shapes.{SerializerInputs, below_threshold}
use cf_knowledge_kiln.Agent.ContextPack.Trim.{derive_confidence, is_downgrading}
use cf_knowledge_kiln.Agent.ContextPack.Assembly.{
  Surroundings, safe_chunks, is_uncited, build_pack, review_reasons, is_content_alarm,
}

abbrev pub is_isolated_match : WarningType → Bool
is_isolated_match isolated_match = true
is_isolated_match _ = false

-- The types that force a review are the two of the reasons and the isolated match.
by_type : (t : WarningType) → forces_review t ≡ (is_content_alarm t || is_isolated_match t)
by_type t = ground arith

module _ (H : Host) where
  open H use {Num, lt, lit}

  length-keep-le : {A : Type 0} (p : A → Bool) (xs : List A) → length (keep p xs) ≤ length xs
  length-keep-le p [] = omega arith
  length-keep-le p (x ∷ xs) = ground (arith, length-keep-le p xs)

  -- Nothing is dropped exactly if nothing is sensitive.
  dropped-zero :
      (p : RankedChunk H → Bool) (xs : List (RankedChunk H))
      → ltb 0 (length xs - length (keep (λ c. not (p c)) xs)) ≡ any p xs
  dropped-zero p [] = refl
  dropped-zero p (x ∷ xs) = ground (arith, dropped-zero p xs, length-keep-le (λ c. not (p c)) xs)

  counted : {A : Type 0} (p : A → Bool) (xs : List A) → ltb 0 (count p xs) ≡ any p xs
  counted p [] = refl
  counted p (x ∷ xs) = ground (arith, counted p xs)

  module _ (s : Surroundings H) (inputs : SerializerInputs H) (max_tokens : ℕ) (embed : Bool) where
    needs_review-build_pack :
        (threshold : Option Num) (kept : List (RankedChunk H)) (used : ℕ)
        → (build_pack H s inputs max_tokens threshold embed kept used).needs_review ≡ (
            requires_human_review H kept inputs.warnings inputs.conflicts threshold
            || (any (is_uncited H inputs) kept || any (λ c. c.has_sensitive_content) inputs.chunks))
    unfolding build_pack
    needs_review-build_pack threshold kept used =
        rw
          (
            counted (is_uncited H inputs) kept,
            dropped-zero (λ c. c.has_sensitive_content) inputs.chunks,
          )
          refl

    answerable-build_pack :
        (threshold : Option Num) (kept : List (RankedChunk H)) (used : ℕ)
        → (build_pack H s inputs max_tokens threshold embed kept used).answerable
          ≡ not (build_pack H s inputs max_tokens threshold embed kept used).needs_review
    unfolding build_pack requires_human_review
    answerable-build_pack threshold [] used = ground arith
    answerable-build_pack threshold (c ∷ kept) used = ground arith

    reasons-build_pack :
        (threshold : Option Num) (kept : List (RankedChunk H)) (used : ℕ)
        → any (is_uncited H inputs) kept ≡ false
        → any (λ c. c.has_sensitive_content) inputs.chunks ≡ false
        → (build_pack H s inputs max_tokens threshold embed kept used).review_reasons
          ≡ review_reasons H kept inputs.warnings inputs.conflicts 0 0
    unfolding build_pack
    reasons-build_pack threshold kept used cited clean =
        let none_uncited : count (is_uncited H inputs) kept ≡ 0 =
          ground (arith, counted (is_uncited H inputs) kept) in
        let none_dropped : length inputs.chunks - length (safe_chunks H inputs) ≡ 0 =
          ground (arith, dropped-zero (λ c. c.has_sensitive_content) inputs.chunks) in
        rw (none_uncited, none_dropped) refl

  -- Under an ordered host, a pack is answerable exactly if its evidence is clear of every review
  -- condition, every piece of it has a document to cite, and no chunk was dropped for sensitive
  -- content.
  pub answerable_iff :
      (s : Surroundings H) (inputs : SerializerInputs H) (max_tokens : ℕ) (embed : Bool)
      (threshold : Option Num) (kept : List (RankedChunk H)) (used : ℕ)
      → IsOrdered H
      → ((build_pack H s inputs max_tokens threshold embed kept used).answerable ≡ true) ↔ (
          IsClear H kept inputs.warnings inputs.conflicts threshold
          × (any (is_uncited H inputs) kept ≡ false)
          × (any (λ c. c.has_sensitive_content) inputs.chunks ≡ false))
  answerable_iff s inputs max_tokens embed threshold kept used ordered =
      let answer = answerable-build_pack s inputs max_tokens embed threshold kept used in
      let review = needs_review-build_pack s inputs max_tokens embed threshold kept used in
      let clear =
        requires_human_review_iff H kept inputs.warnings inputs.conflicts threshold ordered in
      (
        λ h. (clear.0 (ground arith), ground arith, ground arith),
        λ h. let fine = clear.1 h.0 in ground arith,
      )

  -- Under an ordered host, confidence is none exactly without evidence, and high exactly if some
  -- chunk reaches the threshold, some chunk reaches 0.8 and no warning is of a downgrading type.
  pub derive_confidence_iff :
      (evidence : List (RankedChunk H)) (warnings : List (Warning H)) (threshold : Option Num)
      → IsOrdered H
      → ((derive_confidence H evidence warnings threshold ≡ no_confidence) ↔ (evidence ≡ []))
        × ((derive_confidence H evidence warnings threshold ≡ high) ↔ (
            (evidence ≢ [])
            × ¬ All (λ c. lt c.score (effective_threshold H threshold) ≡ true) evidence
            × ¬ All (λ c. lt c.score (lit 8 1) ≡ true) evidence
            × (any (λ w. is_downgrading w.type) warnings ≡ false)))
  unfolding derive_confidence
  derive_confidence_iff [] warnings threshold ordered =
      ((λ h. refl, λ h. refl), (λ h. cc, λ h. absurd (h.0 refl)))
  derive_confidence_iff (c ∷ evidence) warnings threshold ordered =
      let weak = best_score-lt_iff H ordered (effective_threshold H threshold) c evidence in
      let poor = best_score-lt_iff H ordered (lit 8 1) c evidence in
      (
        (λ h. ground arith, λ h. cc),
        (
          λ h. (
            λ e. cc,
            λ all. let low = weak.1 all in ground arith,
            λ all. let low = poor.1 all in ground arith,
            ground arith,
          ),
          λ h. elim (Bool-cases (lt (best_score H c evidence) (effective_threshold H threshold))) [
            | inl p ↦ absurd (h.1 (weak.0 p))
            | inr p ↦ elim (Bool-cases (lt (best_score H c evidence) (lit 8 1))) [
              | inl q ↦ absurd (h.2 (poor.0 q))
              | inr q ↦ let fine = h.3 in ground arith
            ]
          ],
        ),
      )

  any-forces_review :
      (warnings : List (Warning H))
      → any (λ w. forces_review w.type) warnings ≡ (
          any (λ w. is_content_alarm w.type) warnings
          || any (λ w. is_isolated_match w.type) warnings)
  any-forces_review [] = refl
  any-forces_review (w ∷ warnings) = ground (arith, any-forces_review warnings, by_type w.type)

  agreement :
      (kept : List (RankedChunk H)) (warnings : List (Warning H)) (conflicts : List Conflict)
      (uncited dropped : ℕ)
      → (requires_human_review H kept warnings conflicts none || (ltb 0 uncited || ltb 0 dropped))
        ≡ (ltb 0 (length (review_reasons H kept warnings conflicts uncited dropped))
            || any (λ w. is_isolated_match w.type) warnings)
  unfolding review_reasons requires_human_review
  agreement kept warnings (k ∷ ks) uncited dropped = ground arith
  agreement [] warnings [] uncited dropped = ground arith
  agreement (c ∷ kept) warnings [] uncited dropped = ground (arith, any-forces_review warnings)

  -- With the default threshold a pack needs a review exactly if it states a review reason or
  -- carries a warning of the isolated-match type.
  pub needs_review-review_reasons :
      (s : Surroundings H) (inputs : SerializerInputs H) (max_tokens : ℕ) (embed : Bool)
      (kept : List (RankedChunk H)) (used : ℕ)
      → let pack = build_pack H s inputs max_tokens none embed kept used in
        pack.needs_review ≡ (
          ltb 0 (length pack.review_reasons) || any (λ w. is_isolated_match w.type) inputs.warnings)
  unfolding build_pack
  needs_review-review_reasons s inputs max_tokens embed kept used =
      agreement kept inputs.warnings inputs.conflicts (count (is_uncited H inputs) kept)
        (length inputs.chunks - length (safe_chunks H inputs))

  only_below :
      (kept : List (RankedChunk H)) (warnings : List (Warning H)) (conflicts : List Conflict)
      (threshold : Option Num)
      → IsOrdered H
      → IsClear H kept warnings conflicts threshold
      → All (λ c. lt c.score (effective_threshold H none) ≡ true) kept
      → review_reasons H kept warnings conflicts 0 0 ≡ below_threshold ∷ []
  unfolding review_reasons
  only_below kept warnings (k ∷ ks) threshold ordered clear weak = let e = clear.no_conflict in cc
  only_below [] warnings [] threshold ordered clear weak = absurd (clear.some_evidence refl)
  only_below (c ∷ kept) warnings [] threshold ordered clear weak =
      let low = (best_score-lt_iff H ordered (effective_threshold H none) c kept).1 weak in
      let a = clear.some_current in
      let b = clear.some_final in
      let n = clear.no_alarm in ground (arith, any-forces_review warnings)

  -- Under an ordered host, with a caller's threshold that clear evidence meets, all scores below
  -- the module's own threshold, every piece cited and nothing sensitive, a pack is answerable and
  -- needs no review and yet states a reason for one.
  pub answerable_with_reason :
      (s : Surroundings H) (inputs : SerializerInputs H) (max_tokens : ℕ) (embed : Bool)
      (threshold : Option Num) (kept : List (RankedChunk H)) (used : ℕ)
      → IsOrdered H
      → IsClear H kept inputs.warnings inputs.conflicts threshold
      → any (is_uncited H inputs) kept ≡ false
      → any (λ c. c.has_sensitive_content) inputs.chunks ≡ false
      → All (λ c. lt c.score (effective_threshold H none) ≡ true) kept
      → let pack = build_pack H s inputs max_tokens threshold embed kept used in
        (pack.answerable ≡ true)
        × (pack.needs_review ≡ false)
        × (pack.review_reasons ≡ below_threshold ∷ [])
  answerable_with_reason s inputs max_tokens embed threshold kept used ordered clear cited clean
        weak =
      let yes =
        (answerable_iff s inputs max_tokens embed threshold kept used ordered).1
          (clear, cited, clean) in
      let answer = answerable-build_pack s inputs max_tokens embed threshold kept used in
      (
        yes,
        ground arith,
        reasons-build_pack s inputs max_tokens embed threshold kept used cited clean
            ∙ only_below kept inputs.warnings inputs.conflicts threshold ordered clear weak,
      )
