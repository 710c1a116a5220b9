-- ===== src/Tests/Samples.antt =====
-- A concrete platform: numbers in thousandths, without negative ones, and sample data.
use cf_knowledge_kiln.Base.{
  ℕ, ◌+◌, ◌-◌, ◌*◌, ◌/◌, ◌^◌, refl, true, false, none, some, List, [], ◌∷◌, ltb, arith,
}
use cf_knowledge_kiln.Base.Host.{Host, IsOrdered}
use cf_knowledge_kiln.Retrieval.Ranking.Boosts.{Decays}
use cf_knowledge_kiln.Retrieval.Ranking.Chunk.{RankedChunk}
use cf_knowledge_kiln.Retrieval.Types.{Status, active, approved, deprecated}
use cf_knowledge_kiln.Agent.ContextPack.Shapes.{DocumentRef, SerializerInputs}
use cf_knowledge_kiln.Agent.ContextPack.Assembly.{Surroundings}
use Prim.Native.String.{String}

abbrev literal : ℕ → ℕ → ℕ
literal digits decimals = digits * 1000 / 10 ^ decimals

abbrev pub milli : Host
milli = record {
  Num = ℕ;
  lt = ltb;
  add = λ a b. a + b;
  sub = λ a b. a - b;
  mul = λ a b. a * b / 1000;
  div = λ a b. a * 1000 / b;
  of_ℕ = λ n. n * 1000;
  lit = literal;
  Json = String;
}

pub milli-IsOrdered : IsOrdered milli
milli-IsOrdered = record {
  irrefl = λ a. ground arith;
  lt_trans = λ a b c h k. ground arith;
  ge_trans = λ a b c h k. ground arith;
}

pub milli-Decays : Decays milli
milli-Decays = record {
  floor_low = refl;
  sub_le = λ x h. ground arith;
  div_nonneg = λ a b. ground arith;
  one_nonneg = refl;
}

abbrev pub chunk_of : ℕ → ℕ → ℕ → Status → RankedChunk milli
chunk_of chunk_id document_id score status = record {
  chunk_id = chunk_id;
  document_id = document_id;
  score = score;
  status = status;
  heading_path = "Guide" ∷ [];
  authority = none;
  last_reviewed = some 739000;
  has_prompt_injection = false;
  has_sensitive_content = false;
  chunk_metadata = [];
  chunk_index = 0;
  chunk_count = 1;
}

abbrev pub strong : RankedChunk milli
strong = chunk_of 1 10 900 approved

abbrev pub fair : RankedChunk milli
fair = chunk_of 2 11 500 active

abbrev pub faint : RankedChunk milli
faint = chunk_of 3 12 400 active

abbrev pub injected : RankedChunk milli
injected = record (chunk_of 4 13 700 active) { has_prompt_injection = true }

abbrev pub secret : RankedChunk milli
secret = record (chunk_of 5 14 800 active) { has_sensitive_content = true }

abbrev pub old : RankedChunk milli
old = record (chunk_of 6 15 600 deprecated) { last_reviewed = some 730000 }

abbrev pub ref_of : ℕ → String → DocumentRef
ref_of document_id title = record {
  document_id = document_id;
  title = title;
  repo = none;
  path = none;
  source_url = none;
  commit_sha = none;
  authority = none;
  owner = none;
}

abbrev pub inputs_of : List (RankedChunk milli) → SerializerInputs milli
inputs_of chunks = record {
  chunks = chunks;
  warnings = [];
  conflicts = [];
  chunk_text = (1, "one two three") ∷ (2, "four") ∷ (3, "five six") ∷ [];
  document_refs = (10, ref_of 10 "A") ∷ (11, ref_of 11 "B") ∷ (12, ref_of 12 "C") ∷ [];
  related_sources = [];
}

-- Every text counts as four tokens, every pack as nine.
abbrev pub around : Surroundings milli
around = record {
  count_tokens = λ text. 4;
  before = λ a b. true;
  uuid4 = 77;
  any_url = λ url. some url;
  model_dump_json = λ pack. "{}";
}
