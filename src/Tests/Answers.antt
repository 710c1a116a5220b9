-- ===== src/Tests/Answers.antt =====
-- The synthesis of answers at concrete inputs.
use cf_knowledge_kiln.Base.{ℕ_discrete, ◌≡◌, refl, false, none, some, [], ◌∷◌}
use cf_knowledge_kiln.Base.Texts.{codes, strip}
use cf_knowledge_kiln.Base.OrderedDict.{get}
use cf_knowledge_kiln.Retrieval.Ranking.Chunk.{best_score, best_from}
use cf_knowledge_kiln.Retrieval.Ranking.Review.{requires_human_review}
use cf_knowledge_kiln.Agent.ContextPack.Shapes.{ContextPackResponse, SerializerInputs}
use cf_knowledge_kiln.Agent.ContextPack.Trim.{trim_evidence_to_budget, trim_from}
use cf_knowledge_kiln.Agent.ContextPack.Evidence.{evidence_of, to_evidence_chunk}
use cf_knowledge_kiln.Agent.ContextPack.Assembly.{assemble_context_pack, build_pack}
use cf_knowledge_kiln.Agent.Answer.{
  GenerationResult, stop, AnswerRequest, Generator, AnswerResponse, answered, synthesize_answer,
  conclude,
}
use cf_knowledge_kiln.Agent.Answer.Refusals.{IsSound, synthesize_answer-IsSound}
use cf_knowledge_kiln.Tests.Samples.{milli, strong, fair, inputs_of, around}

abbrev inputs : SerializerInputs milli
inputs = inputs_of (strong ∷ fair ∷ [])

abbrev ready : ContextPackResponse milli
ready = record (build_pack milli around inputs 9 none false (strong ∷ fair ∷ []) 8) {
  token_budget = record { requested = 9; used_estimate = 4 };
}

assembled : assemble_context_pack milli around inputs 5 9 none false ≡ some ready
unfolding assemble_context_pack to_evidence_chunk trim_evidence_to_budget trim_from get ℕ_discrete
assembled = refl

abbrev result : GenerationResult
result = record {
  text = codes "Yes [1].";
  finish_reason = stop;
  model = "m";
  prompt_tokens = none;
  completion_tokens = none;
  total_tokens = none;
}

abbrev willing : Generator milli
willing = record { provider = "p"; generate = λ prompt tokens. some result }

abbrev broken : Generator milli
broken = record { provider = "q"; generate = λ prompt tokens. none }

abbrev request : AnswerRequest milli
request = record { query = codes "why?"; task = none; max_chunks = 5; max_answer_tokens = 64 }

abbrev response : AnswerResponse milli
response = answered milli ready request willing result

synthesized : synthesize_answer milli willing request ready ≡ some response
unfolding synthesize_answer conclude build_pack requires_human_review best_score best_from
    evidence_of to_evidence_chunk strip get ℕ_discrete
synthesized = refl

synthesize_answer-IsSound_example : IsSound milli willing request ready response
synthesize_answer-IsSound_example =
    synthesize_answer-IsSound milli willing request ready response synthesized

abbrev empty_pack : ContextPackResponse milli
empty_pack = record ready { evidence = [] }
