-- ===== src/Agent/Answer/Grounds.antt =====
-- What an answer rests on: the evidence that was assembled, and the numbers that cite it, for
-- src/cf_knowledge_kiln/agent/answer.py over agent/serializers.py.
use cf_knowledge_kiln.Base.{
  sym, ℕ, suc, Bool, true, false, Option, none, some, List, [], ◌∷◌, ◌++◌, any, ◌≡◌, ◌≢◌, refl, ap,
  ◌∙◌, Bool-cases, Option-cases, inl, inr, some_inj, none-ne-some,
}
use cf_knowledge_kiln.Base.Host.{Host, IsOrdered}
use cf_knowledge_kiln.Base.Texts.{Text}
use cf_knowledge_kiln.Retrieval.Ranking.Chunk.{RankedChunk}
use cf_knowledge_kiln.Retrieval.Ranking.Review.{IsClear}
use cf_knowledge_kiln.Agent.ContextPack.Shapes.{
  EvidenceChunk, ContextPackResponse, SerializerInputs,
}
use cf_knowledge_kiln.Agent.ContextPack.Trim.{trim_evidence_to_budget}
use cf_knowledge_kiln.Agent.ContextPack.Assembly.{
  Surroundings, assemble_context_pack, build_pack, is_uncited, safe_chunks, cannot_show,
}
use cf_knowledge_kiln.Agent.ContextPack.Safety.{safe_contents}
use cf_knowledge_kiln.Agent.ContextPack.Reasons.{answerable_iff}
use cf_knowledge_kiln.Agent.Answer.{
  AnswerRequest, Generator, AnswerResponse, synthesize_answer, Line, citation, evidence_lines,
  build_synthesis_prompt, location_of, Location,
}
use cf_knowledge_kiln.Agent.Answer.Refusals.{refused, given, synthesize_answer-IsSound}
use Prim.Native.String.{String}

module _ (H : Host) where
  open H use {Num}

  -- The evidence was made of what the trimming kept, which has nothing that calls for a review.
  pub record IsGrounded (s : Surroundings H) (inputs : SerializerInputs H)
      (max_chunks max_tokens : ℕ) (threshold : Option Num) (embed : Bool)
      (pack : ContextPackResponse H) : Type 0 where
    pub kept : List (RankedChunk H)
    pub used : ℕ
    pub trimmed :
        trim_evidence_to_budget H s.count_tokens
          (safe_chunks H inputs)
          (safe_contents H inputs)
          max_chunks
          max_tokens
        ≡ some (kept, used)
    pub built :
        pack.evidence ≡ (build_pack H s inputs max_tokens threshold embed kept used).evidence
    pub clear : IsClear H kept inputs.warnings inputs.conflicts threshold
    pub cited : any (is_uncited H inputs) kept ≡ false
    pub plain : any (λ c. c.has_sensitive_content) inputs.chunks ≡ false

  answerable-IsGrounded :
      (s : Surroundings H) (inputs : SerializerInputs H) (max_chunks max_tokens : ℕ)
      (threshold : Option Num) (embed : Bool) (pack : ContextPackResponse H)
      → IsOrdered H
      → assemble_context_pack H s inputs max_chunks max_tokens threshold embed ≡ some pack
      → pack.answerable ≡ true
      → IsGrounded s inputs max_chunks max_tokens threshold embed pack
  unfolding assemble_context_pack
  answerable-IsGrounded s inputs max_chunks max_tokens threshold embed pack ordered h a =
      let trimmed =
        trim_evidence_to_budget H s.count_tokens (safe_chunks H inputs) (safe_contents H inputs)
          max_chunks max_tokens in
      elim (Option-cases trimmed) [
        | inl e ↦ absurd (none-ne-some (rw (e, assemble_context_pack) at h))
        | inr (found, e) ↦ elim (Bool-cases (any (cannot_show H s inputs) found.0)) [
          | inl u ↦ absurd (none-ne-some (rw (e, assemble_context_pack, u) at h))
          | inr u ↦
              let made = some_inj (rw (e, assemble_context_pack, u) at h) in
              let built = build_pack H s inputs max_tokens threshold embed found.0 found.1 in
              let yes : built.answerable ≡ true =
                ap (λ (p : ContextPackResponse H). p.answerable) made ∙ a in
              let facts =
                (answerable_iff H s inputs max_tokens embed threshold found.0 found.1 ordered).0
                  yes in
              record {
                kept = found.0;
                used = found.1;
                trimmed = e;
                built = sym (ap (λ (p : ContextPackResponse H). p.evidence) made);
                clear = facts.0;
                cited = facts.1;
                plain = facts.2;
              }
        ]
      ]

  -- The numbered citations of a prompt, in order.
  abbrev pub cites : List (Line H) → List (ℕ × String × Location × Option (List String))
  cites [] = []
  cites (citation n title location heading ∷ lines) = (n, title, location, heading) ∷ cites lines
  cites (_ ∷ lines) = cites lines

  -- The evidence with its positions, counted from `n`.
  abbrev pub positions :
      ℕ → List (EvidenceChunk H) → List (ℕ × String × Location × Option (List String))
  positions n [] = []
  positions n (c ∷ cs) = (n, c.title, location_of H c, c.heading_path) ∷ positions (suc n) cs

  cites-evidence_lines :
      (n : ℕ) (cs : List (EvidenceChunk H)) (rest : List (Line H))
      → cites rest ≡ []
      → cites (evidence_lines H n cs ++ rest) ≡ positions n cs
  cites-evidence_lines n [] rest h = h
  cites-evidence_lines n (c ∷ cs) rest h =
      ap (◌∷◌ (n, c.title, location_of H c, c.heading_path))
        (cites-evidence_lines (suc n) cs rest h)

-- The citations of a prompt number the pieces of evidence from 1 on, in their order.
pub cites-build_synthesis_prompt :
    (H : Host) (query : Text) (evidence : List (EvidenceChunk H))
    → cites H (build_synthesis_prompt H query evidence) ≡ positions H 1 evidence
unfolding build_synthesis_prompt
cites-build_synthesis_prompt H query evidence = cites-evidence_lines H 1 evidence _ refl

-- Under an ordered host, a pack that gets an answer with text has evidence that is clear of every
-- review condition and cited, and no candidate with sensitive content.
pub answered-IsGrounded :
    (H : Host) (s : Surroundings H) (inputs : SerializerInputs H) (max_chunks max_tokens : ℕ)
    (threshold : Option H.Num) (embed : Bool) (pack : ContextPackResponse H)
    (generator : Generator H) (request : AnswerRequest H) (response : AnswerResponse H)
    → IsOrdered H
    → assemble_context_pack H s inputs max_chunks max_tokens threshold embed ≡ some pack
    → synthesize_answer H generator request pack ≡ some response
    → response.answer ≢ none
    → IsGrounded H s inputs max_chunks max_tokens threshold embed pack
answered-IsGrounded H s inputs max_chunks max_tokens threshold embed pack generator request response
      ordered h r n =
    elim (synthesize_answer-IsSound H generator request pack response r) [
      | refused no_answer ↦ absurd (n no_answer.no_text)
      | given answer ↦
          answerable-IsGrounded H s inputs max_chunks max_tokens threshold embed pack ordered h
            answer.allowed
    ]
