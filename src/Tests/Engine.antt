-- ===== src/Tests/Engine.antt =====
-- A search and an answer from the query on, at concrete inputs.
use cf_knowledge_kiln.Base.{ℕ, ◌≡◌, refl, true, false, none, some, List, [], ◌∷◌}
use cf_knowledge_kiln.Base.{ℕ_discrete}
use cf_knowledge_kiln.Base.OrderedDict.{get}
use cf_knowledge_kiln.Base.Texts.{codes, strip}
use cf_knowledge_kiln.Retrieval.Config.{
  default_config, weight_for_status, effective_relevance_floor,
}
use cf_knowledge_kiln.Retrieval.Ranking.Boosts.{apply_boost_to_chunk}
use cf_knowledge_kiln.Retrieval.Ranking.Emitters.{
  stale_warnings, deprecated_warnings, prompt_injection_warnings, sensitive_content_warnings,
  weak_evidence_warning,
}
use cf_knowledge_kiln.Retrieval.Ranking.Isolated.{isolated_match_warning}
use cf_knowledge_kiln.Retrieval.Ranking.Review.{collect_warnings, requires_human_review}
use cf_knowledge_kiln.Retrieval.Types.{active}
use cf_knowledge_kiln.Retrieval.Engine.{
  refs_from, gives, raises, only_markers, SearchRow, SearchResult, Retriever, result_of, rank,
  search, effective_query, normalize_query,
}
use cf_knowledge_kiln.Retrieval.Engine.Order.{IsTop, search-IsTop}
use cf_knowledge_kiln.Retrieval.Engine.Pack.{inputs_for, build_context_pack}
use cf_knowledge_kiln.Retrieval.Engine.Answering.{answer_request}
use cf_knowledge_kiln.Retrieval.Engine.Cited.{IsSupported, answer_request-IsSupported}
use cf_knowledge_kiln.Agent.ContextPack.Shapes.{ContextPackResponse}
use cf_knowledge_kiln.Agent.ContextPack.Assembly.{build_pack}
use cf_knowledge_kiln.Agent.ContextPack.Evidence.{to_evidence_chunk}
use cf_knowledge_kiln.Agent.Answer.{
  stop, AnswerRequest, Generator, AnswerResponse, answered, synthesize_answer,
}
use cf_knowledge_kiln.Tests.Samples.{milli, milli-IsOrdered, around}

abbrev row_of : ℕ → ℕ → ℕ → SearchRow milli
row_of chunk_id document_id score = record {
  chunk_id = chunk_id;
  document_id = document_id;
  content = "text";
  heading_path = "Guide" ∷ [];
  chunk_metadata = [];
  status = active;
  authority = none;
  owner = none;
  last_reviewed = some 739000;
  commit_sha = none;
  repo = "r";
  path = "p";
  title = "t";
  source_url = none;
  score = score;
  has_prompt_injection = false;
  has_sensitive_content = false;
  chunk_index = 0;
  chunk_count = 1;
}

abbrev rows : List (SearchRow milli)
rows = row_of 1 10 700 ∷ row_of 2 10 900 ∷ []

-- Only the query "ignore" matches the phrase.
abbrev retriever : Retriever milli
retriever = record {
  config = default_config milli;
  phrases = "ignore" ∷ [];
  patterns = record { remove = λ phrase text. (text, false); collapse = λ text. text };
  today = 739000;
  fetch = λ query. some rows;
}

abbrev marked : Retriever milli
marked = record retriever {
  patterns = record { remove = λ phrase text. ([], true); collapse = λ text. text };
}

refused_query : search milli marked (codes "ignore") 5 ≡ raises only_markers
unfolding search effective_query normalize_query strip
refused_query = refl

abbrev found : SearchResult milli
found = result_of milli retriever rows (rank milli retriever rows 5) [] []

searched : search milli retriever (codes "why?") 5 ≡ gives found
unfolding search strip stale_warnings apply_boost_to_chunk weight_for_status deprecated_warnings
    prompt_injection_warnings effective_relevance_floor sensitive_content_warnings
    weak_evidence_warning isolated_match_warning
searched = refl

abbrev pack : ContextPackResponse milli
pack =
    record (build_pack milli around
      (inputs_for milli retriever rows (rank milli retriever rows 5) [] []) 3000 (some 460) false
      (rank milli retriever rows 5) 8) {
        token_budget = record { requested = 3000; used_estimate = 4 };
      }

search-IsTop_example : IsTop milli retriever (codes "why?") 5 found
search-IsTop_example = search-IsTop milli retriever (codes "why?") 5 found milli-IsOrdered searched

abbrev willing : Generator milli
willing = record {
  provider = "p";
  generate = λ prompt tokens. some (record {
    text = codes "Yes [1].";
    finish_reason = stop;
    model = "m";
    prompt_tokens = none;
    completion_tokens = none;
    total_tokens = none;
  });
}

abbrev request : AnswerRequest milli
request = record { query = codes "why?"; task = none; max_chunks = 5; max_answer_tokens = 64 }

abbrev response : AnswerResponse milli
response = answered milli pack request willing (record {
  text = codes "Yes [1].";
  finish_reason = stop;
  model = "m";
  prompt_tokens = none;
  completion_tokens = none;
  total_tokens = none;
})

answering : answer_request milli retriever around willing request ≡ gives response
unfolding answer_request build_context_pack collect_warnings strip stale_warnings
    apply_boost_to_chunk weight_for_status deprecated_warnings prompt_injection_warnings
    effective_relevance_floor sensitive_content_warnings weak_evidence_warning
    isolated_match_warning synthesize_answer build_pack to_evidence_chunk rank requires_human_review
    inputs_for get refs_from ℕ_discrete
answering = refl

answer_request-IsSupported_example : IsSupported milli retriever around request response
answer_request-IsSupported_example =
    answer_request-IsSupported milli retriever around willing request response milli-IsOrdered
      answering (λ e. cc)
