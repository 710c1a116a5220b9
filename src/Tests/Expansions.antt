-- ===== src/Tests/Expansions.antt =====
-- The expansion of queries at concrete inputs.
use cf_knowledge_kiln.Base.{ℕ, true, false, none, some, [], ◌∷◌, length, ◌≡◌, refl, ℕ_discrete}
use cf_knowledge_kiln.Base.OrderedDict.{get as get_item}
use cf_knowledge_kiln.Base.OrderedDict.{delete, move_to_end, set_item, trim}
use cf_knowledge_kiln.Base.Texts.{Text, codes, strip, lower}
use cf_knowledge_kiln.Retrieval.Hyde.Cache.{HydeCache, init}
use cf_knowledge_kiln.Retrieval.Hyde.Classifier.{Letters, is_jargon_like, words}
use cf_knowledge_kiln.Retrieval.Hyde.Engine.{
  Moment, Prompt, Engine, embedding_text_for_vector_arm, run,
}
use cf_knowledge_kiln.Retrieval.Hyde.Engine.Origins.{
  IsArmText, embedding_text_for_vector_arm-IsArmText,
}
use cf_knowledge_kiln.Tests.Samples.{milli}

abbrev letters : Letters
letters = record {
  lower = lower;
  isupper = λ (t : Text). false;
  is_imperative = λ (t : Text). false;
}

abbrev engine : Engine milli ℕ
engine = record {
  letters = letters;
  generator = some (codes "p", codes "m");
  cache_key = λ (p m q : Text). length q;
  token_threshold = 8;
  jargon_density_threshold = 400;
  max_tokens = 256;
}

abbrev answering : Moment
answering = record {
  now = 100;
  stored_at = 101;
  elapsed = 7;
  generate = λ (p : Prompt) (n : ℕ). some (codes " A text. ");
}

-- The generator is down.
abbrev offline : Moment
offline = record answering { now = 105; generate = λ (p : Prompt) (n : ℕ). none }

abbrev fresh : HydeCache ℕ Text
fresh = record { ttl = 10; max_entries = 2; store = [] }

started : init 10 2 ≡ some fresh
unfolding init
started = refl

-- The query in other spacing and case is answered from the cache.
remembered :
    (embedding_text_for_vector_arm milli ℕ_discrete engine offline
      (codes "OFFSITE  backup")
      (run milli ℕ_discrete engine ((answering, codes "offsite backup") ∷ []) fresh)).0
    ≡ record { text = codes "A text."; used_hyde = true; cache_hit = true; generation_ms = none }
unfolding embedding_text_for_vector_arm run strip get_item delete move_to_end set_item trim
    ℕ_discrete
remembered = refl

split_up : words (codes " a  bc ") ≡ codes "a" ∷ codes "bc" ∷ []
unfolding words
split_up = refl

camel_case : is_jargon_like letters (codes "credHub") ≡ true
unfolding is_jargon_like
camel_case = refl

embedding_text_for_vector_arm-IsArmText_example :
    IsArmText milli ℕ_discrete engine 10
      ((answering, codes "offsite backup") ∷ [])
      (offline, codes "OFFSITE  backup")
      (embedding_text_for_vector_arm milli ℕ_discrete engine offline
        (codes "OFFSITE  backup")
        (run milli ℕ_discrete engine ((answering, codes "offsite backup") ∷ []) fresh)).0
embedding_text_for_vector_arm-IsArmText_example =
    embedding_text_for_vector_arm-IsArmText milli ℕ_discrete engine 10 2 fresh
      ((answering, codes "offsite backup") ∷ []) offline (codes "OFFSITE  backup") started
