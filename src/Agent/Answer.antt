-- ===== src/Agent/Answer.antt =====
-- The synthesis of an answer from a context pack, src/cf_knowledge_kiln/agent/answer.py. A query and
-- a generated text are lists of code points. A prompt is the list of its lines, each with the values
-- that are put into it.
use cf_knowledge_kiln.Base.{
  ℕ, suc, Bool, true, false, not, ◌&&◌, ◌||◌, Option, none, some, List, [], ◌∷◌, ◌++◌,
  if◌then◌else◌,
}
use cf_knowledge_kiln.Base.Host.{Host}
use cf_knowledge_kiln.Base.Texts.{Text, strip, is_empty}
use cf_knowledge_kiln.Retrieval.Types.{
  Confidence, Conflict, Warning, truncated, answer_cut, downgrade_to_flat, default_severity,
  default_action,
}
use cf_knowledge_kiln.Agent.ContextPack.Shapes.{EvidenceChunk, ContextPackResponse, Reason}
use cf_knowledge_kiln.Agent.ContextPack.Assembly.{notice, notice_id, pinned_phrases}
use Prim.Native.String.{String}
pub mod Refusals
pub mod Grounds

-- A string that is set and not empty.
abbrev pub is_set : Option String → Bool
is_set none = false
is_set (some String.[]) = false
is_set (some (String.◌∷◌ c s)) = true

pub data Location : Type 0 where
  in_repo : Option String → Option String → Location
  at_path : Option String → Location
  unknown_source : Location

pub data FinishReason : Type 0 where
  stop cut_at_length content_filter : FinishReason
  other_reason : String → FinishReason

abbrev pub is_filtered : FinishReason → Bool
is_filtered content_filter = true
is_filtered _ = false

abbrev pub is_cut : FinishReason → Bool
is_cut cut_at_length = true
is_cut _ = false

pub record GenerationResult : Type 0 where
  pub text : Text
  pub finish_reason : FinishReason
  pub model : String
  pub prompt_tokens : Option ℕ
  pub completion_tokens : Option ℕ
  pub total_tokens : Option ℕ

pub record AnswerTokenBudget : Type 0 where
  pub requested_max_answer_tokens : ℕ
  pub prompt_tokens : Option ℕ
  pub completion_tokens : Option ℕ
  pub total_tokens : Option ℕ
  pub finish_reason : Option FinishReason

-- An entry of `review_reasons` of an answer.
pub data AnswerReason : Type 0 where
  from_pack : Reason → AnswerReason
  no_evidence_found : AnswerReason
  flagged_upstream : AnswerReason
  generator_declined : FinishReason → AnswerReason

module _ (H : Host) where
  pub data Line : Type 0 where
    system_rules evidence_title question_title answer_cue blank : Line
    citation : ℕ → String → Location → Option (List String) → Line
    body : EvidenceChunk H → Line
    question : Text → Line

  abbrev pub location_of : EvidenceChunk H → Location
  location_of c =
      if is_set c.repo && is_set c.path
      then in_repo c.repo c.path
      else if is_set c.path
      then at_path c.path
      else unknown_source

  -- The evidence, numbered from `n` on.
  abbrev pub evidence_lines : ℕ → List (EvidenceChunk H) → List Line
  evidence_lines n [] = []
  evidence_lines n (c ∷ cs) =
      citation n c.title (location_of c) c.heading_path ∷ body c ∷ blank ∷ evidence_lines (suc n) cs

  unfoldable pub build_synthesis_prompt : Text → List (EvidenceChunk H) → List Line
  build_synthesis_prompt query evidence =
      system_rules
      ∷ blank
      ∷ evidence_title
      ∷ (evidence_lines 1 evidence ++ question_title ∷ question query ∷ blank ∷ answer_cue ∷ [])

  pub record AnswerRequest : Type 0 where
    pub query : Text
    pub task : Option Text
    pub max_chunks : ℕ
    pub max_answer_tokens : ℕ

  -- The provider: its name, and the completion of a prompt within so many tokens (`none` raises).
  pub record Generator : Type 0 where
    pub provider : String
    pub generate : List Line → ℕ → Option GenerationResult

  pub record AnswerResponse : Type 0 where
    pub answer : Option Text
    pub answerable : Bool
    pub confidence : Confidence
    -- the entries that are joined to the text
    pub refusal_reason : Option (List AnswerReason)
    pub evidence : List (EvidenceChunk H)
    pub warnings : List (Warning H)
    pub conflicts : List Conflict
    pub token_budget : AnswerTokenBudget
    pub needs_review : Bool
    pub review_reasons : List AnswerReason
    pub generator_provider : Option String
    pub generator_model : Option String
    pub untrusted_content_notice : String
    pub untrusted_content_notice_id : String
    pub untrusted_content_notice_pinned_phrases : List String

  abbrev pub pack_reasons : List Reason → List AnswerReason
  pack_reasons [] = []
  pack_reasons (r ∷ rs) = from_pack r ∷ pack_reasons rs

  abbrev pub or_reason : List AnswerReason → AnswerReason → List AnswerReason
  or_reason [] r = r ∷ []
  or_reason (x ∷ xs) r = x ∷ xs

  abbrev pub unused_budget : ℕ → AnswerTokenBudget
  unused_budget max_tokens = record {
    requested_max_answer_tokens = max_tokens;
    prompt_tokens = none;
    completion_tokens = none;
    total_tokens = none;
    finish_reason = none;
  }

  abbrev pub used_budget : ℕ → GenerationResult → AnswerTokenBudget
  used_budget max_tokens result = record {
    requested_max_answer_tokens = max_tokens;
    prompt_tokens = result.prompt_tokens;
    completion_tokens = result.completion_tokens;
    total_tokens = result.total_tokens;
    finish_reason = some result.finish_reason;
  }

  abbrev pub refusal :
      ContextPackResponse H
      → List AnswerReason
      → AnswerTokenBudget
      → Option String
      → Option String
      → AnswerResponse
  refusal pack reasons budget provider model = record {
    answer = none;
    answerable = false;
    confidence = pack.confidence;
    refusal_reason = some reasons;
    evidence = pack.evidence;
    warnings = pack.warnings;
    conflicts = pack.conflicts;
    token_budget = budget;
    needs_review = true;
    review_reasons = reasons;
    generator_provider = provider;
    generator_model = model;
    untrusted_content_notice = notice;
    untrusted_content_notice_id = notice_id;
    untrusted_content_notice_pinned_phrases = pinned_phrases;
  }

  -- `_no_evidence_refusal`
  unfoldable pub no_evidence_refusal : ContextPackResponse H → AnswerRequest → AnswerResponse
  no_evidence_refusal pack request =
      refusal pack (or_reason (pack_reasons pack.review_reasons) no_evidence_found)
        (unused_budget request.max_answer_tokens) none none

  -- `_upstream_review_refusal`
  unfoldable pub upstream_review_refusal : ContextPackResponse H → AnswerRequest → AnswerResponse
  upstream_review_refusal pack request =
      refusal pack (or_reason (pack_reasons pack.review_reasons) flagged_upstream)
        (unused_budget request.max_answer_tokens) none none

  -- The warning of an answer that was cut.
  abbrev pub truncation : ℕ → FinishReason → List (Warning H)
  truncation max_tokens finish =
      if is_cut finish
      then downgrade_to_flat H (truncated default_severity default_action answer_cut max_tokens)
        ∷ []
      else []

  abbrev pub answered :
      ContextPackResponse H → AnswerRequest → Generator → GenerationResult → AnswerResponse
  answered pack request generator result = record {
    answer = some result.text;
    answerable = true;
    confidence = pack.confidence;
    refusal_reason = none;
    evidence = pack.evidence;
    warnings = pack.warnings ++ truncation request.max_answer_tokens result.finish_reason;
    conflicts = pack.conflicts;
    token_budget = used_budget request.max_answer_tokens result;
    needs_review = pack.needs_review;
    review_reasons = pack_reasons pack.review_reasons;
    generator_provider = some generator.provider;
    generator_model = some result.model;
    untrusted_content_notice = notice;
    untrusted_content_notice_id = notice_id;
    untrusted_content_notice_pinned_phrases = pinned_phrases;
  }

  unfoldable pub conclude :
      ContextPackResponse H → AnswerRequest → Generator → GenerationResult → AnswerResponse
  unfolding downgrade_to_flat
  conclude pack request generator result =
      if is_filtered result.finish_reason || is_empty (strip result.text)
      then refusal pack
          (pack_reasons pack.review_reasons ++ generator_declined result.finish_reason ∷ [])
          (used_budget request.max_answer_tokens result) (some generator.provider)
          (some result.model)
      else answered pack request generator result

  abbrev pub concluded :
      ContextPackResponse H
      → AnswerRequest
      → Generator
      → Option GenerationResult
      → Option AnswerResponse
  concluded pack request generator none = none
  concluded pack request generator (some result) = some (conclude pack request generator result)

  abbrev pub has_evidence : List (EvidenceChunk H) → Bool
  has_evidence [] = false
  has_evidence (c ∷ cs) = true

  -- `synthesize_answer`, from the pack on; `none` is an exception of the generator.
  unfoldable pub synthesize_answer :
      Generator → AnswerRequest → ContextPackResponse H → Option AnswerResponse
  unfolding no_evidence_refusal upstream_review_refusal conclude build_synthesis_prompt
  synthesize_answer generator request pack =
      if not (has_evidence pack.evidence)
      then some (no_evidence_refusal pack request)
      else if pack.needs_review || not pack.answerable
      then some (upstream_review_refusal pack request)
      else concluded pack request generator (
          generator.generate (build_synthesis_prompt request.query pack.evidence)
            request.max_answer_tokens)
