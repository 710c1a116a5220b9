-- ===== src/Agent/Answer/Refusals.antt =====
-- When an answer is given and when it is refused, src/cf_knowledge_kiln/agent/answer.py.
use cf_knowledge_kiln.Base.{
  true, false, not, ◌||◌, Option, none, some, List, [], ◌∷◌, ◌++◌, ◌≡◌, ◌≢◌, refl, subst, inl, inr,
  Bool-cases, arith, some_inj, none-ne-some, or_false,
}
use cf_knowledge_kiln.Base.Host.{Host}
use cf_knowledge_kiln.Base.Texts.{strip, is_empty}
use cf_knowledge_kiln.Agent.ContextPack.Shapes.{ContextPackResponse}
use cf_knowledge_kiln.Agent.Answer.{
  GenerationResult, AnswerReason, AnswerRequest, Generator, AnswerResponse, is_filtered,
  has_evidence, pack_reasons, or_reason, conclude, concluded, build_synthesis_prompt,
  no_evidence_refusal, upstream_review_refusal, synthesize_answer, generator_declined,
  no_evidence_found, flagged_upstream,
}

module _ (H : Host) where
  -- A refusal gives no text, asks for a review, and states its reasons.
  pub record IsRefusal (response : AnswerResponse H) : Type 0 where
    pub no_text : response.answer ≡ none
    pub unanswerable : response.answerable ≡ false
    pub reviewed : response.needs_review ≡ true
    pub reasons : response.review_reasons ≢ []
    pub reason : response.refusal_reason ≡ some response.review_reasons

  -- An answer is the text that the generator gave for the prompt of an answerable pack.
  pub record IsAnswer (generator : Generator H) (request : AnswerRequest H)
      (pack : ContextPackResponse H) (response : AnswerResponse H) : Type 0 where
    pub result : GenerationResult
    pub generated :
        generator.generate
          (build_synthesis_prompt H request.query pack.evidence)
          request.max_answer_tokens
        ≡ some result
    pub text : response.answer ≡ some result.text
    pub not_blank : is_empty (strip result.text) ≡ false
    pub not_filtered : is_filtered result.finish_reason ≡ false
    pub grounded : has_evidence H pack.evidence ≡ true
    pub unflagged : pack.needs_review ≡ false
    pub allowed : pack.answerable ≡ true
    pub answerable : response.answerable ≡ true
    pub no_refusal : response.refusal_reason ≡ none
    pub its_evidence : response.evidence ≡ pack.evidence

  pub data IsSound (generator : Generator H) (request : AnswerRequest H)
      (pack : ContextPackResponse H) (response : AnswerResponse H) : Type 0 where
    refused : IsRefusal response → IsSound generator request pack response
    given : IsAnswer generator request pack response → IsSound generator request pack response

  or_reason_some : (rs : List AnswerReason) (r : AnswerReason) → or_reason H rs r ≢ []
  or_reason_some [] r e = cc
  or_reason_some (x ∷ xs) r e = cc

  snoc_some : (rs : List AnswerReason) (r : AnswerReason) → rs ++ r ∷ [] ≢ []
  snoc_some [] r e = cc
  snoc_some (x ∷ xs) r e = cc

  module _ (generator : Generator H) (request : AnswerRequest H)
      (pack : ContextPackResponse H) where
    conclude-IsSound :
        (result : GenerationResult)
        → generator.generate
            (build_synthesis_prompt H request.query pack.evidence)
            request.max_answer_tokens
          ≡ some result
        → has_evidence H pack.evidence ≡ true
        → pack.needs_review ≡ false
        → pack.answerable ≡ true
        → IsSound generator request pack (conclude H pack request generator result)
    unfolding conclude
    conclude-IsSound result g e n a =
        elim (Bool-cases (is_filtered result.finish_reason || is_empty (strip result.text))) [
          | inl p ↦ rw p (
              refused (record {
                no_text = refl;
                unanswerable = refl;
                reviewed = refl;
                reason = refl;
                reasons =
                    snoc_some (pack_reasons H pack.review_reasons)
                      (generator_declined result.finish_reason);
              }))
          | inr p ↦
              let (clean, full) = or_false _ _ p in
              rw p (
                given (record {
                  result = result;
                  generated = g;
                  text = refl;
                  not_blank = full;
                  not_filtered = clean;
                  grounded = e;
                  unflagged = n;
                  allowed = a;
                  answerable = refl;
                  no_refusal = refl;
                  its_evidence = refl;
                }))
        ]

    concluded-IsSound :
        (o : Option GenerationResult) (response : AnswerResponse H)
        → generator.generate
            (build_synthesis_prompt H request.query pack.evidence)
            request.max_answer_tokens
          ≡ o
        → has_evidence H pack.evidence ≡ true
        → pack.needs_review ≡ false
        → pack.answerable ≡ true
        → concluded H pack request generator o ≡ some response
        → IsSound generator request pack response
    concluded-IsSound none response g e n a h = absurd (none-ne-some h)
    concluded-IsSound (some result) response g e n a h =
        subst (IsSound generator request pack) (some_inj h) (conclude-IsSound result g e n a)

-- What the synthesis returns is a refusal without text that is marked for review with its reasons,
-- or the generator's text for the prompt of the query and the evidence, which is neither blank nor
-- filtered, over a pack that has evidence, needs no review and is answerable.
pub synthesize_answer-IsSound :
    (H : Host) (generator : Generator H) (request : AnswerRequest H) (pack : ContextPackResponse H)
    (response : AnswerResponse H)
    → synthesize_answer H generator request pack ≡ some response
    → IsSound H generator request pack response
unfolding synthesize_answer no_evidence_refusal upstream_review_refusal
synthesize_answer-IsSound H generator request pack response h =
    elim (Bool-cases (has_evidence H pack.evidence)) [
      | inr e ↦ subst (IsSound H generator request pack) (some_inj (rw e at h)) (
          refused (record {
            no_text = refl;
            unanswerable = refl;
            reviewed = refl;
            reason = refl;
            reasons = or_reason_some H (pack_reasons H pack.review_reasons) no_evidence_found;
          }))
      | inl e ↦ elim (Bool-cases (pack.needs_review || not pack.answerable)) [
        | inl p ↦ subst (IsSound H generator request pack) (some_inj (rw (e, p) at h)) (
            refused (record {
              no_text = refl;
              unanswerable = refl;
              reviewed = refl;
              reason = refl;
              reasons = or_reason_some H (pack_reasons H pack.review_reasons) flagged_upstream;
            }))
        | inr p ↦
            let (unflagged, allowed) = or_false pack.needs_review (not pack.answerable) p in
            concluded-IsSound H generator request pack _ response refl e unflagged (ground arith)
              (rw (e, p) at h)
      ]
    ]
