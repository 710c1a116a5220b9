-- ===== src/Tests/Packs.antt =====
-- Context packs at concrete inputs.
use cf_knowledge_kiln.Base.{
  ℕ, ◌≡◌, refl, ◌↔◌, ◌||◌, true, false, none, some, List, [], ◌∷◌, any, ltb, length, ℕ_discrete,
}
use cf_knowledge_kiln.Base.OrderedDict.{get}
use cf_knowledge_kiln.Retrieval.Types.{Warning}
use cf_knowledge_kiln.Retrieval.Ranking.Chunk.{RankedChunk}
use cf_knowledge_kiln.Retrieval.Ranking.Review.{IsClear}
use cf_knowledge_kiln.Agent.ContextPack.Shapes.{SerializerInputs, below_threshold}
use cf_knowledge_kiln.Agent.ContextPack.Assembly.{build_pack, assemble_context_pack, is_uncited}
use cf_knowledge_kiln.Agent.ContextPack.Safety.{IsAssembled, assemble_context_pack_lem}
use cf_knowledge_kiln.Agent.ContextPack.Reasons.{
  is_isolated_match, answerable_iff, needs_review-review_reasons, answerable_with_reason,
}
use cf_knowledge_kiln.Tests.Samples.{
  milli, milli-IsOrdered, strong, fair, faint, secret, inputs_of, around,
}
use Prim.Native.String.{String}

abbrev four : String → ℕ
four text = 4

abbrev three_texts : List String
three_texts = "one" ∷ "two" ∷ "three" ∷ []

abbrev three_chunks : List (RankedChunk milli)
three_chunks = strong ∷ fair ∷ faint ∷ []

abbrev mixed : SerializerInputs milli
mixed = inputs_of (strong ∷ secret ∷ fair ∷ [])

assemble_context_pack_lem_example :
    IsAssembled milli around mixed 5 9 none true
      (assemble_context_pack milli around mixed 5 9 none true)
assemble_context_pack_lem_example = assemble_context_pack_lem milli around mixed 5 9 none true

abbrev clean : SerializerInputs milli
clean = inputs_of (strong ∷ fair ∷ [])

answerable_iff_example :
    ((build_pack milli around clean 9 none true (strong ∷ fair ∷ []) 8).answerable ≡ true) ↔ (
      IsClear milli (strong ∷ fair ∷ []) [] [] none
      × (any (is_uncited milli clean) (strong ∷ fair ∷ []) ≡ false)
      × (any (λ c. c.has_sensitive_content) clean.chunks ≡ false))
answerable_iff_example =
    answerable_iff milli around clean 9 true none (strong ∷ fair ∷ []) 8 milli-IsOrdered

needs_review-review_reasons_example :
    let pack = build_pack milli around mixed 9 none true (strong ∷ fair ∷ []) 8 in
    pack.needs_review ≡ (
      ltb 0 (length pack.review_reasons)
      || any (λ (w : Warning milli). is_isolated_match w.type) [])
needs_review-review_reasons_example =
    needs_review-review_reasons milli around mixed 9 true (strong ∷ fair ∷ []) 8

abbrev low_scored : SerializerInputs milli
low_scored = inputs_of (faint ∷ [])

-- The caller's threshold of 0.3 is met by 0.4, which is below 0.46.
faint-IsClear : IsClear milli (faint ∷ []) [] [] (some 300)
faint-IsClear = record {
  no_conflict = refl;
  some_evidence = λ h. cc;
  some_current = refl;
  some_final = refl;
  no_alarm = refl;
  some_strong = λ h. cc;
}

faint_cited : any (is_uncited milli low_scored) (faint ∷ []) ≡ false
unfolding get ℕ_discrete
faint_cited = refl

answerable_with_reason_example :
    let pack = build_pack milli around low_scored 9 (some 300) true (faint ∷ []) 4 in
    (pack.answerable ≡ true)
    × (pack.needs_review ≡ false)
    × (pack.review_reasons ≡ below_threshold ∷ [])
answerable_with_reason_example =
    answerable_with_reason milli around low_scored 9 true (some 300) (faint ∷ []) 4 milli-IsOrdered
      faint-IsClear faint_cited refl (refl, tt)
