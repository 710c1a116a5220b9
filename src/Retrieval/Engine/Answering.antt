-- ===== src/Retrieval/Engine/Answering.antt =====
-- The answer route from the query on: synthesize_answer of
-- src/cf_knowledge_kiln/agent/answer.py over the retriever's pack.
use cf_knowledge_kiln.Base.{ℕ, false, Option, none, some, if◌then◌else◌}
use cf_knowledge_kiln.Base.Host.{Host}
use cf_knowledge_kiln.Base.Texts.{Text, codes, is_empty}
use cf_knowledge_kiln.Agent.ContextPack.Shapes.{ContextPackResponse}
use cf_knowledge_kiln.Agent.ContextPack.Assembly.{Surroundings}
use cf_knowledge_kiln.Agent.Answer.{Generator, AnswerRequest, AnswerResponse, synthesize_answer}
use cf_knowledge_kiln.Retrieval.Engine.{Attempt, ◌>>=◌, or_err, generator_failed, Retriever}
use cf_knowledge_kiln.Retrieval.Engine.Pack.{build_context_pack}

abbrev pub default_retrieval_token_budget : ℕ
default_retrieval_token_budget = 3000

abbrev pub default_task : Text
default_task = codes "answer the user's question from the cited evidence"

-- `request.task or _DEFAULT_TASK`
abbrev pub task_of : Option Text → Text
task_of none = default_task
task_of (some task) = if is_empty task then default_task else task

module _ (H : Host) where
  -- The generator is asked about the pack, or is not.
  abbrev pub with_pack :
      Generator H → AnswerRequest H → ContextPackResponse H → Attempt (AnswerResponse H)
  with_pack generator request pack =
      or_err (synthesize_answer H generator request pack) generator_failed

  unfoldable pub answer_request :
      Retriever H → Surroundings H → Generator H → AnswerRequest H → Attempt (AnswerResponse H)
  unfolding build_context_pack synthesize_answer
  answer_request r s generator request = do
    pack ←
        build_context_pack H r s (task_of request.task) request.query request.max_chunks
          default_retrieval_token_budget false
    with_pack generator request pack
