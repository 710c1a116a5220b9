-- ===== src/Tests/Rankings.antt =====
-- Ranking, the warnings and the review at concrete inputs.
use cf_knowledge_kiln.Base.{
  ℕ, ◌≡◌, refl, ◌↔◌, ◌≢◌, ◌||◌, true, false, Option, none, some, List, [], ◌∷◌, any, All,
  ℕ_discrete,
}
use cf_knowledge_kiln.Base.OrderedDict.{get}
use cf_knowledge_kiln.Retrieval.Types.{Warning, downgrade_to_flat}
use cf_knowledge_kiln.Retrieval.Config.{default_config, model_validate}
use cf_knowledge_kiln.Retrieval.Ranking.Chunk.{RankedChunk, best_score, best_from}
use cf_knowledge_kiln.Retrieval.Ranking.Fusion.{rrf_fuse, tally_arms, get-rrf_fuse}
use cf_knowledge_kiln.Retrieval.Ranking.Emitters.{
  stale_warnings, stale_from, deprecated_warnings, deprecated_from, gate_for_warnings,
  prompt_injection_warnings, sensitive_content_warnings, weak_evidence_warning,
}
use cf_knowledge_kiln.Retrieval.Ranking.Isolated.{
  isolated_match_warning, isolated_among, sort_ranked,
}
use cf_knowledge_kiln.Retrieval.Ranking.Review.{
  requires_human_review, requires_human_review_iff, IsClear, collect_warnings, forces_review,
}
use cf_knowledge_kiln.Retrieval.Ranking.Review.Alarms.{
  IsPlain, flagged_forces_review, collected_severity,
}
use cf_knowledge_kiln.Tests.Samples.{milli, milli-IsOrdered, strong, faint, injected, old}

abbrev today : ℕ
today = 739100

abbrev found : List (RankedChunk milli)
found = strong ∷ injected ∷ old ∷ []

default_accepted : model_validate milli (default_config milli) ≡ some (default_config milli)
unfolding model_validate
default_accepted = refl

get-rrf_fuse_example :
    get ℕ_discrete 2 (rrf_fuse milli 60 ((1 ∷ 2 ∷ []) ∷ (2 ∷ 3 ∷ []) ∷ []))
    ≡ tally_arms milli 60 2 ((1 ∷ 2 ∷ []) ∷ (2 ∷ 3 ∷ []) ∷ []) none
get-rrf_fuse_example = get-rrf_fuse milli 60 2 ((1 ∷ 2 ∷ []) ∷ (2 ∷ 3 ∷ []) ∷ [])

faint-weak : weak_evidence_warning milli (faint ∷ []) none ≢ []
unfolding weak_evidence_warning best_score best_from
faint-weak h = cc

requires_human_review_iff_example :
    (requires_human_review milli found [] [] none ≡ false) ↔ IsClear milli found [] [] none
requires_human_review_iff_example = requires_human_review_iff milli found [] [] none milli-IsOrdered

abbrev collected_found : Option (List (Warning milli))
collected_found = collect_warnings milli found today (some 365) none none (some 3) (some 300)

abbrev warnings_of : Option (List (Warning milli)) → List (Warning milli)
warnings_of none = []
warnings_of (some warnings) = warnings

found_collected : collected_found ≡ some (warnings_of collected_found)
unfolding collect_warnings stale_warnings
found_collected = refl

found_flagged :
    any
      (λ c. c.has_prompt_injection || c.has_sensitive_content)
      (gate_for_warnings milli found none (some 3))
    ≡ true
unfolding gate_for_warnings
found_flagged = refl

flagged_forces_review_example :
    requires_human_review milli found (warnings_of collected_found) [] none ≡ true
flagged_forces_review_example =
    flagged_forces_review milli found today (some 365) none none (some 3) (some 300) found_collected
      found [] none found_flagged

collected_severity_example : All (IsPlain milli) (warnings_of collected_found)
collected_severity_example =
    collected_severity milli found today (some 365) none none (some 3) (some 300) found_collected

-- An injection warning is among those that are collected.
found_alarm : any (λ w. forces_review w.type) (warnings_of collected_found) ≡ true
unfolding collect_warnings stale_warnings stale_from deprecated_warnings deprecated_from
    prompt_injection_warnings sensitive_content_warnings gate_for_warnings weak_evidence_warning
    isolated_match_warning sort_ranked isolated_among best_score best_from downgrade_to_flat
found_alarm = refl
